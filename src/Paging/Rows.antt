-- ===== src/Paging/Rows.antt =====
-- The rows that a list shows: the first occurrence of each identity, in the order of the pages.
use sigil_manager.Prelude.{
  String, true, false, Option, some, List, [], ◌∷◌, ◌++◌, ◌≡◌, inl, inr, refl, sym, ap, arith,
  if◌then◌else◌, ◌==◌, string_eq, eq_iff, eq_refl, includes, Distinct, map, find, Bool-cases,
  flat_map,
}
use mathlib.Core.List.{append_assoc, append-nil}
use sigil_manager.Paging.{PagesData, keep_first, all_rows, rows, selected}

-- `xs` is `ys` with some elements left out.
pub data Within {ℓ} {A : Type ℓ} : List A → List A → Type ℓ where
  done : Within [] []
  kept : {x : A} {xs ys : List A} → Within xs ys → Within (x ∷ xs) (x ∷ ys)
  dropped : {y : A} {xs ys : List A} → Within xs ys → Within xs (y ∷ ys)

flat_map-append {ℓ κ} :
    {A : Type ℓ} {B : Type κ} (f : A → List B) (xs ys : List A)
    → flat_map f (xs ++ ys) ≡ flat_map f xs ++ flat_map f ys
flat_map-append f [] ys = refl
flat_map-append f (x ∷ xs) ys = rw (flat_map-append f xs ys) (sym (append_assoc (f x) _ _))

module _ {ℓ} {T : Type ℓ} (identity : T → String) where
  abbrev ids : List T → List String
  ids = map identity

  -- What the table of a list shows, against the rows of its pages in the order of the pages.
  pub record Shows (shown fetched : List T) : Type ℓ where
    pub distinct : Distinct (map identity shown)
    pub first :
        (k : String) → find (λ r. identity r == k) shown ≡ find (λ r. identity r == k) fetched
    pub within : Within shown fetched

  -- The kept identities are fresh, and no two are the same.
  keep_first-fresh :
      (seen : List String) (l : List T) (k : String)
      → includes seen k ≡ true
      → includes (ids (keep_first identity seen l)) k ≡ false
  unfolding keep_first
  keep_first-fresh seen [] k h = refl
  keep_first-fresh seen (row ∷ l) k h = elim (Bool-cases (includes seen (identity row))) [
    | inl old ↦ rw old (keep_first-fresh seen l k h)
    | inr new ↦
        rw new (ground (arith, eq_iff (identity row) k, keep_first-fresh (identity row ∷ seen) l k))
  ]

  keep_first-Distinct :
      (seen : List String) (l : List T) → Distinct (ids (keep_first identity seen l))
  unfolding keep_first
  keep_first-Distinct seen [] = tt
  keep_first-Distinct seen (row ∷ l) = elim (Bool-cases (includes seen (identity row))) [
    | inl old ↦ rw old (keep_first-Distinct seen l)
    | inr new ↦ rw new (
      keep_first-fresh (identity row ∷ seen) l (identity row) (rw (eq_refl (identity row))),
      keep_first-Distinct (identity row ∷ seen) l,
    )
  ]

  -- Looking a fresh identity up among the kept rows finds its first occurrence.
  keep_first-find :
      (seen : List String) (l : List T) (k : String)
      → includes seen k ≡ false
      → find (λ r. identity r == k) (keep_first identity seen l) ≡ find (λ r. identity r == k) l
  unfolding keep_first
  keep_first-find seen [] k h = refl
  keep_first-find seen (row ∷ l) k h = elim (Bool-cases (includes seen (identity row))) [
    | inl old ↦ rw old (ground (arith, eq_iff (identity row) k, keep_first-find seen l k))
    | inr new ↦ rw new (ground (arith, keep_first-find (identity row ∷ seen) l k))
  ]

  -- The kept rows keep their order, and each one comes from the list.
  keep_first-Within : (seen : List String) (l : List T) → Within (keep_first identity seen l) l
  unfolding keep_first
  keep_first-Within seen [] = done
  keep_first-Within seen (row ∷ l) = elim (Bool-cases (includes seen (identity row))) [
    | inl old ↦ rw old (dropped (keep_first-Within seen l))
    | inr new ↦ rw new (kept (keep_first-Within (identity row ∷ seen) l))
  ]

  -- The set that the loop has seen after a list.
  seen_after : List String → List T → List String
  seen_after seen [] = seen
  seen_after seen (row ∷ l) =
      seen_after (if includes seen (identity row) then seen else identity row ∷ seen) l

  keep_first-append :
      (seen : List String) (l m : List T)
      → keep_first identity seen (l ++ m)
        ≡ keep_first identity seen l ++ keep_first identity (seen_after seen l) m
  unfolding keep_first seen_after
  keep_first-append seen [] m = refl
  keep_first-append seen (row ∷ l) m = elim (Bool-cases (includes seen (identity row))) [
    | inl old ↦ rw old (keep_first-append seen l m)
    | inr new ↦ rw new (ap (◌∷◌ row) (keep_first-append (identity row ∷ seen) l m))
  ]

module _ {ℓ κ} {T : Type ℓ} {P : Type κ} (select : P → Option (List T))
    (identity : T → String) where
  -- Whatever pages are loaded, no identity is shown twice, each identity that was fetched is shown
  -- by its first occurrence and no other is shown, and the rows keep the order of the pages.
  pub rows-Shows :
      (loaded : Option (PagesData P))
      → Shows identity (rows select identity loaded) (all_rows select loaded)
  unfolding rows
  rows-Shows loaded = record {
    distinct = keep_first-Distinct identity [] (all_rows select loaded);
    first = λ k. keep_first-find identity [] (all_rows select loaded) k refl;
    within = keep_first-Within identity [] (all_rows select loaded);
  }

  -- Loading one more page only adds rows below the ones that are shown, and all of them are rows of
  -- that page.
  pub rows-append_page :
      (pages : List P) (params : List (Option String)) (page : P) (param : Option String)
      → (more : List T) × (rows select identity
            (some (record { pages = pages ++ page ∷ []; page_params = params ++ param ∷ [] }))
          ≡ rows select identity (some (record { pages = pages; page_params = params })) ++ more)
        × Within more (selected select page)
  unfolding rows all_rows
  rows-append_page pages params page param =
      let before = flat_map (selected select) pages in
      let seen = seen_after identity [] before in
      (
        keep_first identity seen (selected select page),
        rw (flat_map-append (selected select) pages (page ∷ []), append-nil (selected select page))
            (keep_first-append identity [] before (selected select page)),
        keep_first-Within identity seen (selected select page),
      )
