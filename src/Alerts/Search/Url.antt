-- ===== src/Alerts/Search/Url.antt =====
-- The URL holds the search: what the page writes there, it reads back.
use sigil_manager.Prelude.{
  String, Option, none, some, List, [], ◌∷◌, ◌≡◌, ◌≢◌, refl, ap, arith, if◌then◌else◌, ◌==◌,
  string_eq, eq_iff, Json, Fields, end, field, Items, nil, cons, lookup, items, Bool-cases, inl,
  inr,
}
use sigil_manager.Api.Triage.{
  TriageStatus, open_status, acknowledged, investigating, resolved, status_text,
}
use sigil_manager.Api.Fleet.{Bucket, low, medium, high, critical, bucket_text}
use sigil_manager.Alerts.Sorting.{SortMode, severity_desc, age_desc, age_asc}
use sigil_manager.Alerts.Search.{
  AlertsSearch, validate_search, raw_statuses, valid_statuses, valid_bucket, valid_sort, text_then,
  not_empty, some_if_any,
}

-- A search that the page can hold after validation: no text and no list in it is empty.
pub record IsWellFormed (s : AlertsSearch) : Type 0 where
  pub statuses : s.triage_statuses ≢ some []
  pub since : s.since ≢ some ""
  pub query : s.query ≢ some ""
  pub alert : s.alert ≢ some ""

abbrev sort_text : SortMode → String
sort_text severity_desc = "severity_desc"
sort_text age_desc = "age_desc"
sort_text age_asc = "age_asc"

-- A property of the search object, left out where it is `undefined`.
abbrev pub property {ℓ} : {A : Type ℓ} → String → (A → Json) → Option A → Fields → Fields
property k f none rest = rest
property k f (some v) rest = field k (f v) rest

abbrev status_items : List TriageStatus → Items
status_items [] = nil
status_items (s ∷ ss) = cons (Json.string (status_text s)) (status_items ss)

-- The search object as the router holds it.
unfoldable pub raw_of : AlertsSearch → Fields
raw_of s =
    property "minBucket" (λ b. Json.string (bucket_text b)) s.min_bucket
      (property "triageStatuses" (λ ss. Json.array (status_items ss)) s.triage_statuses
        (property "since" Json.string s.since (
          property "query" Json.string s.query (
            property "alert" Json.string s.alert
              (property "sort" (λ m. Json.string (sort_text m)) s.sort end)))))

valid_statuses-items : (ss : List TriageStatus) → valid_statuses (items (status_items ss)) ≡ ss
unfolding valid_statuses
valid_statuses-items [] = refl
valid_statuses-items (open_status ∷ ss) = ap (◌∷◌ open_status) (valid_statuses-items ss)
valid_statuses-items (acknowledged ∷ ss) = ap (◌∷◌ acknowledged) (valid_statuses-items ss)
valid_statuses-items (investigating ∷ ss) = ap (◌∷◌ investigating) (valid_statuses-items ss)
valid_statuses-items (resolved ∷ ss) = ap (◌∷◌ resolved) (valid_statuses-items ss)

abbrev value_or {ℓ} : {A : Type ℓ} → (A → Json) → Option A → Json → Json
value_or f none d = d
value_or f (some v) d = f v

lookup-property {ℓ} :
    {A : Type ℓ} (k j : String) (f : A → Json) (v : Option A) (rest : Fields)
    → lookup j (property k f v rest)
      ≡ (if k == j then value_or f v (lookup j rest) else lookup j rest)
lookup-property k j f none rest = ground arith
lookup-property k j f (some v) rest = ground arith

read_bucket :
    (v : Option Bucket)
    → text_then valid_bucket (value_or (λ b. Json.string (bucket_text b)) v Json.undefined) ≡ v
read_bucket none = refl
read_bucket (some low) = refl
read_bucket (some medium) = refl
read_bucket (some high) = refl
read_bucket (some critical) = refl

read_sort :
    (v : Option SortMode)
    → text_then valid_sort (value_or (λ m. Json.string (sort_text m)) v Json.undefined) ≡ v
read_sort none = refl
read_sort (some severity_desc) = refl
read_sort (some age_desc) = refl
read_sort (some age_asc) = refl

read_text :
    (v : Option String)
    → v ≢ some ""
    → text_then not_empty (value_or Json.string v Json.undefined) ≡ v
read_text none h = refl
read_text (some t) h = elim (Bool-cases (t == "")) [
  | inl empty ↦ absurd (h (ap some ((eq_iff t "").0 empty)))
  | inr given ↦ rw given
]

read_statuses :
    (v : Option (List TriageStatus))
    → v ≢ some []
    → some_if_any (
        valid_statuses
          (raw_statuses (value_or (λ ss. Json.array (status_items ss)) v Json.undefined)))
      ≡ v
unfolding raw_statuses
read_statuses none h = unfold valid_statuses in refl
read_statuses (some []) h = absurd (h refl)
read_statuses (some (s ∷ ss)) h = rw (valid_statuses-items (s ∷ ss))

-- A search that has no empty part is read back from the URL as it was written.
pub validate_search-raw_of : (s : AlertsSearch) → IsWellFormed s → validate_search (raw_of s) ≡ s
unfolding raw_of validate_search
validate_search-raw_of s w =
    let bucket : (validate_search (raw_of s)).min_bucket ≡ s.min_bucket =
      simp lookup-property (read_bucket s.min_bucket) in
    let statuses : (validate_search (raw_of s)).triage_statuses ≡ s.triage_statuses =
      simp lookup-property (read_statuses s.triage_statuses w.statuses) in
    let since : (validate_search (raw_of s)).since ≡ s.since =
      simp lookup-property (read_text s.since w.since) in
    let query : (validate_search (raw_of s)).query ≡ s.query =
      simp lookup-property (read_text s.query w.query) in
    let alert : (validate_search (raw_of s)).alert ≡ s.alert =
      simp lookup-property (read_text s.alert w.alert) in
    let sort : (validate_search (raw_of s)).sort ≡ s.sort =
      simp lookup-property (read_sort s.sort) in
    λ i. record {
      min_bucket = bucket i;
      triage_statuses = statuses i;
      since = since i;
      query = query i;
      alert = alert i;
      sort = sort i;
    }

not_empty-ne : (v : Json) → text_then not_empty v ≢ some ""
not_empty-ne (Json.string t) h = elim (Bool-cases (t == "")) [
  | inl empty ↦ ground (arith)
  | inr given ↦ ground (arith, eq_iff t "")
]
not_empty-ne Json.undefined h = cc
not_empty-ne _ h = cc

some_if_any-ne : (ss : List TriageStatus) → some_if_any ss ≢ some []
some_if_any-ne [] h = cc
some_if_any-ne (s ∷ ss) h = cc

-- Whatever the URL holds, the validated search has no empty part.
pub validate_search-IsWellFormed : (raw : Fields) → IsWellFormed (validate_search raw)
unfolding validate_search
validate_search-IsWellFormed raw = record {
  statuses = some_if_any-ne (valid_statuses (raw_statuses (lookup "triageStatuses" raw)));
  since = not_empty-ne (lookup "since" raw);
  query = not_empty-ne (lookup "query" raw);
  alert = not_empty-ne (lookup "alert" raw);
}
