-- ===== src/Alerts/Sorting.antt =====
-- The order of the queue, twice: `sortEvents` of web/src/components/AlertsQueue/QueueTable.tsx
-- orders the table, and `sortRows` of web/src/routes/_authed/alerts.tsx the keyboard's moves.
pub mod Severity
pub mod Order
use sigil_manager.Prelude.{
  ℕ, zero, suc, ◌-◌, String, Bool, true, false, Option, none, some, List, [], ◌∷◌, ltb, not,
  if◌then◌else◌, ◌==◌, string_eq, nat_eq, truthy?, ℤ, pos, negsuc, is_positive, less,
}
use sigil_manager.Prelude.Sort.{sort}
use sigil_manager.Api.Fleet.{Event, Evidence, EventWithTriage, ai_guard_risk_assessed, kind_of}

pub data SortMode : Type 0 where
  severity_desc age_desc age_asc : SortMode

-- `BUCKET_RANK[bucket]`
unfoldable pub bucket_rank_of : String → Option ℕ
bucket_rank_of bucket =
    if bucket == "critical"
    then some 4
    else if bucket == "high"
    then some 3
    else if bucket == "medium"
    then some 2
    else if bucket == "low"
    then some 1
    else if bucket == "info"
    then some 0
    else none

-- `(ev.evidence as { bucket?: string }).bucket`
abbrev pub bucket_of : Evidence → Option String
bucket_of (ai_guard_risk_assessed a) = some a.bucket
bucket_of _ = none

-- `bucket ? (BUCKET_RANK[bucket] ?? 0) : 0`
unfoldable pub rank_or_zero : Option String → ℕ
unfolding bucket_rank_of
rank_or_zero none = 0
rank_or_zero (some bucket) =
    if not (bucket == "") then (elim (bucket_rank_of bucket) [ none ↦ 0 | some n ↦ n ]) else 0

-- `a - b` on ranks
abbrev difference : ℕ → ℕ → ℤ
difference a b = if ltb a b then negsuc (b - a - 1) else pos (a - b)

abbrev negate : ℤ → ℤ
negate (pos zero) = pos zero
negate (pos (suc n)) = negsuc n
negate (negsuc n) = pos (suc n)

-- `bucketRankFor` of the table.
unfoldable pub bucket_rank_for : EventWithTriage → ℕ
unfolding rank_or_zero
bucket_rank_for ev = elim ev.evidence [
  | none ↦ if ev.severity == "warn" then 2 else 0
  | some e ↦
      if kind_of e == "ai_guard_risk_assessed"
      then rank_or_zero (bucket_of e)
      else if ev.severity == "warn"
      then 2
      else 0
]

-- `tsCompareDesc` of the table.
unfoldable pub ts_compare_desc : String → String → ℤ
ts_compare_desc a b = if less a b then pos 1 else if less b a then negsuc 0 else pos 0

unfoldable pub compare_events : SortMode → EventWithTriage → EventWithTriage → ℤ
compare_events severity_desc a b =
    let sa = bucket_rank_for a in
    let sb = bucket_rank_for b in
    if not (sa == sb) then difference sb sa else ts_compare_desc a.ts b.ts
compare_events age_desc a b = ts_compare_desc a.ts b.ts
compare_events age_asc a b = negate (ts_compare_desc a.ts b.ts)

-- `sortEvents` of the table.
unfoldable pub sort_events : List EventWithTriage → SortMode → List EventWithTriage
unfolding compare_events bucket_rank_for ts_compare_desc
sort_events events mode = sort (λ a b. is_positive (compare_events mode a b)) events

-- `bucketRank` and `tsDesc`, local to `sortRows` of the page.
unfoldable pub bucket_rank : EventWithTriage → ℕ
unfolding rank_or_zero
bucket_rank ev = elim ev.evidence [
  | none ↦ if ev.severity == "warn" then 2 else 0
  | some e ↦
      if kind_of e == "ai_guard_risk_assessed"
      then rank_or_zero (bucket_of e)
      else if ev.severity == "warn"
      then 2
      else 0
]

unfoldable pub ts_desc : String → String → ℤ
ts_desc a b = if less a b then pos 1 else if less b a then negsuc 0 else pos 0

unfoldable pub compare_rows : SortMode → EventWithTriage → EventWithTriage → ℤ
compare_rows severity_desc a b =
    let sa = bucket_rank a in
    let sb = bucket_rank b in if not (sa == sb) then difference sb sa else ts_desc a.ts b.ts
compare_rows age_desc a b = ts_desc a.ts b.ts
compare_rows age_asc a b = negate (ts_desc a.ts b.ts)

-- `sortRows` of the page.
unfoldable pub sort_rows : List EventWithTriage → SortMode → List EventWithTriage
unfolding compare_rows bucket_rank ts_desc
sort_rows rows mode = sort (λ a b. is_positive (compare_rows mode a b)) rows
