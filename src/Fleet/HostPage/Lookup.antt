-- ===== src/Fleet/HostPage/Lookup.antt =====
-- The lookup of a host's policy status: the effect of web/src/routes/_authed/hosts/$hostId.tsx over
-- the shared list of web/src/hooks/useFleetCompliance.ts, and the note that it leaves.
use sigil_manager.Prelude.{
  String, Bool, true, false, Option, none, some, List, [], ◌∷◌, if◌then◌else◌, ◌||◌, ◌&&◌,
}
use sigil_manager.Api.Fleet.{ComplianceRow, CompliancePage}
use sigil_manager.Paging.{PagesData, PagedQuery, rows, has_more, cursor_repeated}
use sigil_manager.Fleet.HostPage.{ComplianceFeed, PolicyNote, compliance_row}

abbrev pub page_rows : CompliancePage → Option (List ComplianceRow)
page_rows page = some page.rows

abbrev pub page_cursor : CompliancePage → Option String
page_cursor page = page.next_cursor

abbrev pub row_id : ComplianceRow → String
row_id row = row.host_id

-- The value of `useFleetCompliance`, by what the query shows.
unfoldable pub feed_of : PagedQuery CompliancePage → ComplianceFeed
feed_of q = record {
  rows = rows page_rows row_id q.loaded;
  has_error = q.has_error;
  cursor_repeated = cursor_repeated page_cursor q.loaded;
  is_pending = q.is_pending && (elim q.loaded [ none ↦ true | some d ↦ false ]);
  has_more = has_more page_cursor q.loaded;
  is_fetching = q.is_fetching;
}

abbrev is_there : Option ComplianceRow → Bool
is_there none = false
is_there (some row) = true

-- The effect: with the row at hand it loads nothing more.
abbrev pub has_row : (host_id : String) → PagedQuery CompliancePage → Bool
has_row host_id q = is_there (compliance_row host_id (feed_of q))

abbrev pub first_page : CompliancePage → PagesData CompliancePage
first_page page = record { pages = page ∷ []; page_params = none ∷ [] }

-- The note in the end: none with a row, and else why there is none.
abbrev pub final_note : ComplianceFeed → Option ComplianceRow → Option PolicyNote
final_note feed (some row) = none
final_note feed none = some (
    if feed.has_error || feed.cursor_repeated
    then record { text = "Policy status could not be loaded."; can_retry = true }
    else record { text = "No policy status reported for this host."; can_retry = false })
