-- ===== src/Fleet/Notices.antt =====
-- The notices of the fleet pages: web/src/components/Fleet/Pagination.tsx,
-- web/src/components/Layout/ConnectionBanner.tsx, and the policy line of
-- web/src/routes/_authed/hosts/$hostId.tsx.
pub mod Ends
pub mod Banners
pub mod Controls
use sigil_manager.Prelude.{
  ℕ, String, Bool, true, false, Option, none, some, List, [], ◌∷◌, ◌||◌, if◌then◌else◌, template,
}
use sigil_manager.Api.Client.{
  Failure, Outcome, resolved, rejected, service_unavailable, unauthorized, is_instance,
}

-- The count line of a list; `show` prints a number.
unfoldable pub pagination_line :
    (show : ℕ → String) (count : ℕ)
    (is_pending has_more cursor_repeated has_error local_filter : Bool)
    → String
pagination_line show count is_pending has_more cursor_repeated has_error local_filter =
    let line =
      if is_pending
      then "Loading…"
      else template (
          show count
          ∷ " loaded · "
          ∷ (if has_more || cursor_repeated || has_error
              then "partial results"
              else "end of results")
          ∷ []) in
    let note =
      if local_filter then " · Search and status filters apply to loaded results only." else "" in
    template (line ∷ note ∷ [])

-- The line under a host's header when no compliance row of it is loaded.
unfoldable pub policy_line :
    (has_error cursor_repeated is_pending has_more is_fetching : Bool) → String
policy_line has_error cursor_repeated is_pending has_more is_fetching =
    if has_error || cursor_repeated
    then "Policy status could not be loaded."
    else if is_pending || has_more || is_fetching
    then "Looking up policy status…"
    else "No policy status reported for this host."

-- The banner's message, by the answer of the health query.
unfoldable pub connection_banner : Outcome → Option String
connection_banner (resolved v) = none
connection_banner (rejected f) =
    if is_instance unauthorized f
    then none
    else if is_instance service_unavailable f
    then some "lodeline-server is rebuilding its index. Retrying every 10s…"
    else some "Lost connection to lodeline-server. Retrying every 10s…"
