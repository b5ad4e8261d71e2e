-- ===== src/Alerts/Search.antt =====
-- The search part of the page's URL in web/src/routes/_authed/alerts.tsx: how it is validated, how
-- it becomes the filter, and how the controls change it.
pub mod Url
pub mod Controls
use sigil_manager.Prelude.{
  ℕ, String, Bool, true, false, Option, none, some, List, [], ◌∷◌, ◌++◌, ◌||◌, if◌then◌else◌, not,
  ltb, length, ◌==◌, string_eq, nat_eq, truthy, split, Json, Fields, lookup, items, filter, map,
  includes,
}
use sigil_manager.Api.Triage.{
  TriageStatus, open_status, acknowledged, investigating, resolved, status_beq, status_eq,
}
use sigil_manager.Api.Fleet.{Bucket, low, medium, high, critical}
use sigil_manager.Alerts.Sorting.{SortMode, severity_desc, age_desc, age_asc}
use sigil_manager.Alerts.Filter.{AlertFilter, default_filter}

pub record AlertsSearch : Type 0 where
  pub min_bucket : Option Bucket
  pub triage_statuses : Option (List TriageStatus)
  pub since : Option String
  pub query : Option String
  pub alert : Option String
  pub sort : Option SortMode

-- Each of these tests a text against the list of valid values, and casts it.
abbrev valid_bucket : String → Option Bucket
valid_bucket s =
    if s == "low"
    then some low
    else if s == "medium"
    then some medium
    else if s == "high"
    then some high
    else if s == "critical"
    then some critical
    else none

abbrev valid_status : String → Option TriageStatus
valid_status s =
    if s == "open"
    then some open_status
    else if s == "acknowledged"
    then some acknowledged
    else if s == "investigating"
    then some investigating
    else if s == "resolved"
    then some resolved
    else none

abbrev valid_sort : String → Option SortMode
valid_sort s =
    if s == "severity_desc"
    then some severity_desc
    else if s == "age_desc"
    then some age_desc
    else if s == "age_asc"
    then some age_asc
    else none

-- `typeof v === 'string'`, and then the test.
abbrev text_then {ℓ} : {A : Type ℓ} → (String → Option A) → Json → Option A
text_then f (Json.string s) = f s
text_then f _ = none

-- `v.length > 0`
abbrev not_empty : String → Option String
not_empty s = if not (s == "") then some s else none

-- `rawStatuses`
unfoldable pub raw_statuses : Json → List Json
raw_statuses (Json.array vs) = items vs
raw_statuses (Json.string s) = map Json.string (split b',' s)
raw_statuses _ = []

unfoldable pub valid_statuses : List Json → List TriageStatus
valid_statuses [] = []
valid_statuses (v ∷ vs) =
    let rest = valid_statuses vs in
    elim (text_then valid_status v) [ none ↦ rest | some s ↦ s ∷ rest ]

-- `if (xs.length > 0) out.triageStatuses = xs`
abbrev some_if_any : List TriageStatus → Option (List TriageStatus)
some_if_any [] = none
some_if_any (s ∷ ss) = some (s ∷ ss)

unfoldable pub validate_search : Fields → AlertsSearch
validate_search raw = record {
  min_bucket = text_then valid_bucket (lookup "minBucket" raw);
  triage_statuses = some_if_any (valid_statuses (raw_statuses (lookup "triageStatuses" raw)));
  since = text_then not_empty (lookup "since" raw);
  query = text_then not_empty (lookup "query" raw);
  alert = text_then not_empty (lookup "alert" raw);
  sort = text_then valid_sort (lookup "sort" raw);
}

-- `v ?? d`
abbrev pub default_to {ℓ} : {A : Type ℓ} → A → Option A → A
default_to d none = d
default_to d (some v) = v

unfoldable pub filter_of : AlertsSearch → AlertFilter
filter_of s = record {
  min_bucket = default_to default_filter.min_bucket s.min_bucket;
  triage_statuses = default_to default_filter.triage_statuses s.triage_statuses;
  since = elim s.since [ none ↦ default_filter.since | some t ↦ some t ];
  query = default_to default_filter.query s.query;
}

unfoldable pub sort_of : AlertsSearch → SortMode
sort_of s = default_to severity_desc s.sort

abbrev pub bucket_beq : Bucket → Bucket → Bool
bucket_beq low low = true
bucket_beq medium medium = true
bucket_beq high high = true
bucket_beq critical critical = true
bucket_beq _ _ = false

abbrev since_beq : Option String → Option String → Bool
since_beq none none = true
since_beq (some a) (some b) = a == b
since_beq _ _ = false

unfoldable pub is_filter_active : AlertFilter → Bool
is_filter_active f =
    not (bucket_beq f.min_bucket default_filter.min_bucket)
    || not (length f.triage_statuses == length default_filter.triage_statuses)
    || not (since_beq f.since default_filter.since)
    || not (f.query == default_filter.query)

-- A property of `Partial<AlertsSearch>`: left out, or given, `undefined` included.
pub data Change {ℓ} (A : Type ℓ) : Type ℓ where
  keep : Change A
  assign : Option A → Change A

pub record SearchChange : Type 0 where
  pub min_bucket : Change Bucket
  pub triage_statuses : Change (List TriageStatus)
  pub since : Change String
  pub query : Change String
  pub alert : Change String
  pub sort : Change SortMode

abbrev pub no_change : SearchChange
no_change = record {
  min_bucket = keep;
  triage_statuses = keep;
  since = keep;
  query = keep;
  alert = keep;
  sort = keep;
}

abbrev changed {ℓ} : {A : Type ℓ} → Option A → Change A → Option A
changed old keep = old
changed old (assign new) = new

-- `{ ...search, ...next }`
unfoldable pub set_search : AlertsSearch → SearchChange → AlertsSearch
set_search s c = record {
  min_bucket = changed s.min_bucket c.min_bucket;
  triage_statuses = changed s.triage_statuses c.triage_statuses;
  since = changed s.since c.since;
  query = changed s.query c.query;
  alert = changed s.alert c.alert;
  sort = changed s.sort c.sort;
}

abbrev pub on_sort_change : AlertsSearch → SortMode → AlertsSearch
on_sort_change s mode = set_search s (record no_change { sort = assign (some mode) })

abbrev pub on_select : AlertsSearch → String → AlertsSearch
on_select s event_id = set_search s (record no_change { alert = assign (some event_id) })

abbrev pub close_slide_over : AlertsSearch → AlertsSearch
close_slide_over s = set_search s (record no_change { alert = assign none })

abbrev pub on_reset_filters : AlertsSearch → AlertsSearch
on_reset_filters s = set_search s (record no_change {
  min_bucket = assign none;
  triage_statuses = assign none;
  since = assign none;
  query = assign none;
})

-- A click on a status chip of web/src/components/AlertsQueue/FilterRow.tsx.
unfoldable pub toggle_status : TriageStatus → List TriageStatus → List TriageStatus
toggle_status s chosen =
    if includes chosen s then filter (λ v. not (status_beq v s)) chosen else chosen ++ s ∷ []

-- A click on the "Age" header of web/src/components/AlertsQueue/QueueTable.tsx.
unfoldable pub toggle_age : SortMode → SortMode
toggle_age age_desc = age_asc
toggle_age _ = age_desc
