-- ===== src/Checks/SearchChecks.antt =====
-- The search part of the queue's URL, and the query of its request, on concrete values.
use sigil_manager.Prelude.{none, some, [], ◌∷◌, ◌≡◌, eq_iff, arith, Json, Fields, end, field}
use sigil_manager.Api.Triage.{open_status, resolved, status_eq}
use sigil_manager.Api.Fleet.{low, high}
use sigil_manager.Api.Query.{EventsParams, build_query}
use sigil_manager.Alerts.Sorting.{age_asc}
use sigil_manager.Alerts.Search.{AlertsSearch, validate_search}
use sigil_manager.Alerts.Search.Url.{IsWellFormed, raw_of, validate_search-raw_of}
use sigil_manager.Checks.Samples.{number}

search : Unit {0}
unfolding validate_search build_query
search = tt

abbrev raw : Fields
raw =
    field "triageStatuses" (Json.string "open,bogus,resolved")
      (field "minBucket" (Json.string "info") (field "query" (Json.string "") end))

abbrev linked : AlertsSearch
linked = record {
  min_bucket = some low;
  triage_statuses = some (open_status ∷ resolved ∷ []);
  since = none;
  query = some "h1";
  alert = some "e1";
  sort = some age_asc;
}

linked-IsWellFormed : IsWellFormed linked
linked-IsWellFormed = record {
  statuses = λ h. cc;
  since = λ h. cc;
  query = λ h. ground (arith, eq_iff "h1" "");
  alert = λ h. ground (arith, eq_iff "e1" "");
}

validate_search-raw_of_example : validate_search (raw_of linked) ≡ linked
validate_search-raw_of_example = validate_search-raw_of linked linked-IsWellFormed

abbrev params : EventsParams
params = record {
  cursor = some "c1";
  limit = some (number "100");
  host_id = some ("h1" ∷ "h2" ∷ []);
  since = none;
  until = some "";
  evidence_kind = some ("heartbeat" ∷ "file_change" ∷ []);
  severity = none;
  source = some [];
  min_ai_guard_bucket = some high;
}
