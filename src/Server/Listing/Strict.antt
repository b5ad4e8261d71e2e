-- ===== src/Server/Listing/Strict.antt =====
-- Rows with different keys stand strictly one after another in the order of `ListByStatus` in
-- internal/triage/repo.go.
use sigil_manager.Prelude.{
  ◌≤◌, String, Bool, true, false, List, [], ◌∷◌, ◌≡◌, inl, inr, arith, eq_iff, string_eq,
  Bool-cases, filter, length, All,
}
use sigil_manager.Prelude.Sort.{sort, IsSorted, IsConsistent, sort-IsSorted, length-sort}
use sigil_manager.Server.{Row, is_row}
use sigil_manager.Server.Tables.{is_row_self}
use sigil_manager.Server.KeyOrder.{past-IsConsistent, past-connex}
use sigil_manager.Server.Listing.{row_after, key_of}
use sigil_manager.Server.Listing.Pages.{IsStrict, filter-sort}

pub row_after-IsConsistent : IsConsistent row_after
row_after-IsConsistent = record {
  asym = λ x y h. past-IsConsistent.asym (key_of x) (key_of y) h;
  trans = λ x y z h k. past-IsConsistent.trans (key_of x) (key_of y) (key_of z) h k;
}

-- No key has two of the rows.
abbrev pub IsSingle : List Row → Type 0
IsSingle rows = (h e : String) → length (filter (is_row h e) rows) ≤ 1

pub IsSingle-filter : (p : Row → Bool) (rows : List Row) → IsSingle rows → IsSingle (filter p rows)
IsSingle-filter p rows single h e = omega (arith, single h e, fewer rows)
  where
    fewer :
        (l : List Row) → length (filter (is_row h e) (filter p l)) ≤ length (filter (is_row h e) l)
    fewer [] = omega arith
    fewer (r ∷ l) = ground (arith, fewer l)

IsSingle-sort : (rows : List Row) → IsSingle rows → IsSingle (sort row_after rows)
IsSingle-sort rows single h e =
    rw
      (
        filter-sort row_after row_after-IsConsistent (is_row h e) rows,
        length-sort row_after (filter (is_row h e) rows),
      )
      (single h e)

IsSingle-tail : (r : Row) (rows : List Row) → IsSingle (r ∷ rows) → IsSingle rows
IsSingle-tail r rows single h e = ground (arith, single h e)

-- A row that is not before another one of another key is past it.
past_other :
    (x y : Row)
    → row_after x y ≡ false
    → is_row x.host_id x.event_id y ≡ false
    → row_after y x ≡ true
past_other x y sorted foreign = elim (Bool-cases (row_after y x)) [
  | inl later ↦ later
  | inr level ↦
      let (at, host, event) = past-connex (key_of x) (key_of y) level sorted in
      absurd (ground (arith, eq_iff y.host_id x.host_id, eq_iff y.event_id x.event_id))
]

none-All :
    (p : Row → Bool) (rows : List Row) → length (filter p rows) ≤ 0 → All (λ r. p r ≡ false) rows
none-All p [] h = tt
none-All p (r ∷ rows) h = (ground arith, none-All p rows (ground arith))

past_others :
    (x : Row) (rows : List Row)
    → All (λ y. row_after x y ≡ false) rows
    → All (λ y. is_row x.host_id x.event_id y ≡ false) rows
    → All (λ y. row_after y x ≡ true) rows
past_others x [] h k = tt
past_others x (y ∷ rows) h k = (past_other x y h.0 k.0, past_others x rows h.1 k.1)

sorted-IsStrict :
    (rows : List Row) → IsSorted row_after rows → IsSingle rows → IsStrict row_after rows
sorted-IsStrict [] h single = tt
sorted-IsStrict (r ∷ rows) (below, h) single =
    let alone = single r.host_id r.event_id in
    let own = is_row_self r in
    (
      past_others r rows below
          (none-All (is_row r.host_id r.event_id) rows (ground (arith, alone, own))),
      sorted-IsStrict rows h (IsSingle-tail r rows single),
    )

pub sort-IsStrict : (rows : List Row) → IsSingle rows → IsStrict row_after (sort row_after rows)
sort-IsStrict rows single =
    sorted-IsStrict (sort row_after rows) (sort-IsSorted row_after row_after-IsConsistent rows)
      (IsSingle-sort rows single)
