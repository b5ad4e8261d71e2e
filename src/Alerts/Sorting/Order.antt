-- ===== src/Alerts/Sorting/Order.antt =====
-- What the two sorts of the queue do, and that they agree.
use mathlib.Core.List.{Perm}
use sigil_manager.Prelude.{
  ℕ, ◌<◌, String, Bool, true, false, List, [], ◌∷◌, ◌≡◌, ◌⊎◌, ◌↔◌, ◌∙◌, inl, inr, refl, sym, ap,
  arith, less, All, is_positive, filter, Bool-cases, ◌==◌, nat_eq, ltb, if◌then◌else◌,
}
use sigil_manager.Prelude.TextOrder.{less-asym, less_trans}
use sigil_manager.Prelude.Sort.{
  sort, IsConsistent, IsSorted, level, sort-perm, sort-IsSorted, sort_stable,
}
use sigil_manager.Api.Fleet.{EventWithTriage}
use sigil_manager.Alerts.Sorting.Severity.{
  HasRank, HasRank-bucket_rank_for, bucket_rank_for-HasRank,
}
use sigil_manager.Alerts.Sorting.{
  SortMode, severity_desc, age_desc, age_asc, bucket_rank_for, ts_compare_desc, compare_events,
  sort_events, bucket_rank, ts_desc, compare_rows, sort_rows, negate,
}

-- What stands at one rank, with how the ranks of two events compare.
abbrev Ranked : (ℕ → ℕ → Type 0) → EventWithTriage → EventWithTriage → Type 0
Ranked R a b = (m n : ℕ) × HasRank a.evidence a.severity m × HasRank b.evidence b.severity n × R m n

-- The queue's order, read from the labels of the modes: `a` may stand above `b`.
abbrev pub MayPrecede : SortMode → EventWithTriage → EventWithTriage → Type 0
MayPrecede severity_desc a b = Ranked (λ m n. (n < m) ⊎ ((n ≡ m) × (less a.ts b.ts ≡ false))) a b
MayPrecede age_desc a b = less a.ts b.ts ≡ false
MayPrecede age_asc a b = less b.ts a.ts ≡ false

-- The times of two events are not apart.
abbrev IsSameTime : EventWithTriage → EventWithTriage → Type 0
IsSameTime a b = (less a.ts b.ts ≡ false) × (less b.ts a.ts ≡ false)

-- The mode does not tell two events apart.
abbrev pub IsLevel : SortMode → EventWithTriage → EventWithTriage → Type 0
IsLevel severity_desc a b = Ranked (λ m n. (m ≡ n) × IsSameTime a b) a b
IsLevel age_desc a b = IsSameTime a b
IsLevel age_asc a b = IsSameTime a b

abbrev pub InOrder : SortMode → List EventWithTriage → Type 0
InOrder mode [] = Unit
InOrder mode (x ∷ xs) = All (MayPrecede mode x) xs × InOrder mode xs

abbrev pub events_after : SortMode → EventWithTriage → EventWithTriage → Bool
events_after mode a b = is_positive (compare_events mode a b)

-- The same by the two keys of the order.
abbrev later : ℕ → ℕ → Bool → Bool
later ra rb older = if ra == rb then older else ltb ra rb

positive_desc : (a b : String) → is_positive (ts_compare_desc a b) ≡ less a b
unfolding ts_compare_desc
positive_desc a b = ground arith

positive_asc : (a b : String) → is_positive (negate (ts_compare_desc a b)) ≡ less b a
unfolding ts_compare_desc
positive_asc a b = ground (arith, less-asym a b)

positive_severity :
    (x y : EventWithTriage)
    → events_after severity_desc x y
      ≡ later (bucket_rank_for x) (bucket_rank_for y) (less x.ts y.ts)
unfolding compare_events
positive_severity x y = ground (arith, positive_desc x.ts y.ts)

positive_age_desc : (x y : EventWithTriage) → events_after age_desc x y ≡ less x.ts y.ts
unfolding compare_events
positive_age_desc x y = positive_desc x.ts y.ts

positive_age_asc : (x y : EventWithTriage) → events_after age_asc x y ≡ less y.ts x.ts
unfolding compare_events
positive_age_asc x y = positive_asc x.ts y.ts

after-asym :
    (mode : SortMode) (x y : EventWithTriage)
    → events_after mode x y ≡ true
    → events_after mode y x ≡ false
after-asym severity_desc x y h =
    ground (arith, positive_severity x y, positive_severity y x, less-asym x.ts y.ts)
after-asym age_desc x y h =
    cc (
      positive_age_desc x y,
      positive_age_desc y x,
      less-asym x.ts y.ts (rw positive_age_desc at h),
    )
after-asym age_asc x y h =
    cc (positive_age_asc x y, positive_age_asc y x, less-asym y.ts x.ts (rw positive_age_asc at h))

after_trans :
    (mode : SortMode) (x y z : EventWithTriage)
    → events_after mode x y ≡ false
    → events_after mode y z ≡ false
    → events_after mode x z ≡ false
after_trans severity_desc x y z h k = ground (
  arith,
  positive_severity x y,
  positive_severity y z,
  positive_severity x z,
  less_trans x.ts y.ts z.ts,
)
after_trans age_desc x y z h k =
    rw positive_age_desc
      (less_trans x.ts y.ts z.ts (rw positive_age_desc at h) (rw positive_age_desc at k))
after_trans age_asc x y z h k =
    rw positive_age_asc
      (less_trans z.ts y.ts x.ts (rw positive_age_asc at k) (rw positive_age_asc at h))

-- The comparison is consistent, so the language fixes the result of the sort.
pub events_after-IsConsistent : (mode : SortMode) → IsConsistent (events_after mode)
events_after-IsConsistent mode = record { asym = after-asym mode; trans = after_trans mode }

after-MayPrecede :
    (mode : SortMode) (x y : EventWithTriage) → events_after mode x y ≡ false → MayPrecede mode x y
after-MayPrecede severity_desc x y h =
    let keys = positive_severity x y in
    (
      bucket_rank_for x,
      bucket_rank_for y,
      bucket_rank_for-HasRank x,
      bucket_rank_for-HasRank y,
      elim (Bool-cases (bucket_rank_for x == bucket_rank_for y)) [
        | inl same ↦ inr (ground arith, ground arith)
        | inr other ↦ inl (ground arith)
      ],
    )
after-MayPrecede age_desc x y h = rw positive_age_desc at h
after-MayPrecede age_asc x y h = rw positive_age_asc at h

All-MayPrecede :
    (mode : SortMode) (x : EventWithTriage) (l : List EventWithTriage)
    → All (λ y. events_after mode x y ≡ false) l
    → All (MayPrecede mode x) l
All-MayPrecede mode x [] h = tt
All-MayPrecede mode x (y ∷ l) h = (after-MayPrecede mode x y h.0, All-MayPrecede mode x l h.1)

IsSorted-InOrder :
    (mode : SortMode) (l : List EventWithTriage) → IsSorted (events_after mode) l → InOrder mode l
IsSorted-InOrder mode [] h = tt
IsSorted-InOrder mode (x ∷ l) h = (All-MayPrecede mode x l h.0, IsSorted-InOrder mode l h.1)

level-IsLevel :
    (mode : SortMode) (k x : EventWithTriage)
    → level (events_after mode) k x ≡ true
    → IsLevel mode k x
level-IsLevel severity_desc k x h =
    let there = positive_severity k x in
    let back = positive_severity x k in
    (
      bucket_rank_for k,
      bucket_rank_for x,
      bucket_rank_for-HasRank k,
      bucket_rank_for-HasRank x,
      (ground arith, (ground arith, ground arith)),
    )
level-IsLevel age_desc k x h =
    let there = positive_age_desc k x in
    let back = positive_age_desc x k in (ground arith, ground arith)
level-IsLevel age_asc k x h =
    let there = positive_age_asc k x in
    let back = positive_age_asc x k in (ground arith, ground arith)

IsLevel-level :
    (mode : SortMode) (k x : EventWithTriage)
    → IsLevel mode k x
    → level (events_after mode) k x ≡ true
IsLevel-level severity_desc k x (m, n, of_k, of_x, (same, (there, back))) =
    let ranks : bucket_rank_for k ≡ bucket_rank_for x =
      HasRank-bucket_rank_for k m of_k ∙ same ∙ sym (HasRank-bucket_rank_for x n of_x) in
    ground (arith, positive_severity k x, positive_severity x k)
IsLevel-level age_desc k x (there, back) =
    ground (arith, positive_age_desc k x, positive_age_desc x k)
IsLevel-level age_asc k x (there, back) = ground (arith, positive_age_asc k x, positive_age_asc x k)

-- The table shows every event once, in the order of the mode: by severity rank and then newest
-- first, newest first, or oldest first. Of any events that are exactly those which the mode does not
-- tell apart from one event, the order is the one in which the server sent them. The ranks are those
-- of the buckets, from critical to low, with everything else last, and a warning that is no
-- assessment has the rank of medium.
pub sort_events_lem :
    (events : List EventWithTriage) (mode : SortMode)
    → Perm (sort_events events mode) events
      × InOrder mode (sort_events events mode)
      × ((k : EventWithTriage)
          → (alike : EventWithTriage → Bool) × ((x : EventWithTriage)
              → (alike x ≡ true) ↔ IsLevel mode k x)
            × (filter alike (sort_events events mode) ≡ filter alike events))
unfolding sort_events
sort_events_lem events mode =
    let c = events_after-IsConsistent mode in
    (
      sort-perm (events_after mode) events,
      IsSorted-InOrder mode (sort (events_after mode) events)
          (sort-IsSorted (events_after mode) c events),
      λ k. (
        level (events_after mode) k,
        λ x. (level-IsLevel mode k x, IsLevel-level mode k x),
        sort_stable (events_after mode) c k events,
      ),
    )

bucket_rank-eq : (ev : EventWithTriage) → bucket_rank ev ≡ bucket_rank_for ev
unfolding bucket_rank bucket_rank_for
bucket_rank-eq ev = refl

ts_desc-eq : (a b : String) → ts_desc a b ≡ ts_compare_desc a b
unfolding ts_desc ts_compare_desc
ts_desc-eq a b = refl

compare_rows-eq :
    (mode : SortMode) (a b : EventWithTriage) → compare_rows mode a b ≡ compare_events mode a b
unfolding compare_rows compare_events
compare_rows-eq severity_desc a b = simp (bucket_rank-eq, ts_desc-eq)
compare_rows-eq age_desc a b = ts_desc-eq a.ts b.ts
compare_rows-eq age_asc a b = ap negate (ts_desc-eq a.ts b.ts)

-- The order of the keyboard's moves is the order of the table, for any events and mode.
pub sort_rows-eq-sort_events :
    (rows : List EventWithTriage) (mode : SortMode) → sort_rows rows mode ≡ sort_events rows mode
unfolding sort_rows sort_events
sort_rows-eq-sort_events rows mode =
    ap (λ after. sort after rows) (λ i a b. is_positive (compare_rows-eq mode a b i))
