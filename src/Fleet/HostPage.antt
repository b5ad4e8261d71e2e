-- ===== src/Fleet/HostPage.antt =====
-- The page of one host: web/src/hooks/useFleetHost.ts and
-- web/src/routes/_authed/hosts/$hostId.tsx. `decode` reads the body of an answer as a host.
pub mod Answers
pub mod Lookup
use sigil_manager.Prelude.{
  String, Bool, true, false, Option, none, some, List, [], ◌∷◌, ◌&&◌, ◌||◌, if◌then◌else◌, not,
  ◌==◌, string_eq, find, template, Number, Json, Fields, lookup,
}
use sigil_manager.Api.Client.{
  Failure, Outcome, resolved, rejected, not_found, is_instance, message_of,
}
use sigil_manager.Api.Fleet.{HostDetail, HostSummary, ComplianceRow, ToolAiGuard}
use sigil_manager.Display.Status.{ComplianceStatus, derive_compliance_status}
use sigil_manager.Fleet.Events.{FleetEventsFilter}
use sigil_manager.Fleet.Notices.{policy_line}
use sigil_manager.Fleet.Tables.{host_cell, relative_age, CompliancePill, compliance_pill}

-- The search of the page: the event that it names.
unfoldable pub validate_host_search : Fields → Option String
validate_host_search raw = elim (lookup "event" raw) [ Json.string id ↦ some id | _ ↦ none ]

-- What the query library shows of the request for the host.
pub record HostQuery : Type 0 where
  pub loaded : Option HostDetail
  pub is_pending : Bool
  pub error : Option Failure

-- The value of `useFleetHost`.
unfoldable pub use_fleet_host : HostQuery → HostQuery
use_fleet_host q = record q {
  is_pending = q.is_pending && (elim q.loaded [ none ↦ true | some h ↦ false ]);
}

-- What the shared list of compliance rows tells the page.
pub record ComplianceFeed : Type 0 where
  pub rows : List ComplianceRow
  pub has_error : Bool
  pub cursor_repeated : Bool
  pub is_pending : Bool
  pub has_more : Bool
  pub is_fetching : Bool

-- The row of the host, among the rows that are loaded.
unfoldable pub compliance_row : (host_id : String) → ComplianceFeed → Option ComplianceRow
compliance_row host_id feed = find (λ r. r.host_id == host_id) feed.rows

pub record Header : Type 0 where
  pub heading : String
  pub status : String
  pub compliance : Option CompliancePill
  pub last_seen : String
  pub agent : String

-- The line below the header, where no row is loaded, and whether it offers to try again.
pub record PolicyNote : Type 0 where
  pub text : String
  pub can_retry : Bool

pub record HostView : Type 0 where
  pub header : Header
  pub policy_note : Option PolicyNote
  pub by_tool : List (String × ToolAiGuard)

pub data PageView : Type 0 where
  not_found_panel : (host_id : String) → PageView
  failed_to_load : (message : String) → PageView
  skeleton : PageView
  host : HostView → PageView

-- The events below the cards are those of the host, of any kind.
unfoldable pub host_events_filter : (host_id : String) → FleetEventsFilter
host_events_filter host_id = record {
  evidence_kinds = [];
  host_ids = host_id ∷ [];
  since = none;
  until = none;
  tool = none;
}

module _ (distance : String → Option String) where
  unfoldable pub header : HostDetail → Option ComplianceRow → Header
  header h row = record {
    heading = host_cell h.hostname h.host_id;
    status = h.status;
    compliance = elim row [
      | none ↦ none
      | some r ↦ some (compliance_pill (derive_compliance_status r))
    ];
    last_seen = template ("last seen " ∷ relative_age distance h.last_seen_ts ∷ " ago" ∷ []);
    agent = template ("agent v" ∷ h.agent_version ∷ []);
  }

  unfoldable pub policy_note : ComplianceFeed → Option ComplianceRow → Option PolicyNote
  policy_note feed (some row) = none
  policy_note feed none = some (record {
    text =
        policy_line feed.has_error feed.cursor_repeated feed.is_pending feed.has_more
          feed.is_fetching;
    can_retry = feed.has_error || feed.cursor_repeated;
  })

  unfoldable pub host_view : (host_id : String) → ComplianceFeed → HostDetail → HostView
  unfolding header policy_note compliance_row
  host_view host_id feed h = record {
    header = header h (compliance_row host_id feed);
    policy_note = policy_note feed (compliance_row host_id feed);
    by_tool = elim h.ai_guard [ none ↦ [] | some tools ↦ tools ];
  }

  -- The early returns of the page, and the page.
  unfoldable pub page_view : (host_id : String) → ComplianceFeed → HostQuery → PageView
  unfolding host_view
  page_view host_id feed q = elim q.error [
    | some f ↦
        if is_instance not_found f
        then not_found_panel host_id
        else failed_to_load (template ("Failed to load host: " ∷ message_of f ∷ []))
    | none ↦
        if q.is_pending
        then skeleton
        else (elim q.loaded [ none ↦ skeleton | some h ↦ host (host_view host_id feed h) ])
  ]

-- The query once its last attempt has ended, with nothing loaded before.
unfoldable pub settled_query : (decode : Json → HostDetail) → Outcome → HostQuery
settled_query decode (resolved v) = record {
  loaded = some (decode v);
  is_pending = false;
  error = none;
}
settled_query decode (rejected f) = record { loaded = none; is_pending = false; error = some f }
