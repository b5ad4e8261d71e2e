-- ===== src/Server/Timed.antt =====
-- A table that is read in the order of its times, and of its ids where the times are equal, as in
-- `ListNotes` and `ListLog` of internal/triage/repo.go.
use sigil_manager.Prelude.{
  ℕ, suc, ◌≤◌, Bool, false, List, [], ◌∷◌, ◌++◌, ◌≡◌, refl, ap, ◌∙◌, inl, inr, arith, ◌&&◌, ◌||◌,
  ltb, eqb, length, filter, All, All-append, All-filter, Bool-cases, length-append,
}
use sigil_manager.Prelude.Sort.{sort, insert_sorted, IsSorted}
use sigil_manager.Server.Tables.{All-mono}

module _ {A : Type 0} (time id : A → ℕ) where
  abbrev pub after : A → A → Bool
  after a b = ltb (time b) (time a) || (eqb (time a) (time b) && ltb (id b) (id a))

  -- Written in the order of time, up to a latest time, with ids that count up.
  pub record IsTimed (latest : ℕ) (xs : List A) : Type 0 where
    pub ordered : IsSorted after xs
    pub bounded : All (λ x. (time x ≤ latest) × (id x ≤ length xs)) xs

  sort-IsSorted_self : (xs : List A) → IsSorted after xs → sort after xs ≡ xs
  unfolding sort insert_sorted
  sort-IsSorted_self [] h = refl
  sort-IsSorted_self (x ∷ xs) (below, h) =
      ap (insert_sorted after x) (sort-IsSorted_self xs h) ∙ first xs below
    where
      first : (ys : List A) → All (λ y. after x y ≡ false) ys → insert_sorted after x ys ≡ x ∷ ys
      first [] k = refl
      first (y ∷ ys) k = rw k.0 refl

  filter-IsSorted : (p : A → Bool) (xs : List A) → IsSorted after xs → IsSorted after (filter p xs)
  filter-IsSorted p [] h = tt
  filter-IsSorted p (x ∷ xs) (below, h) = elim (Bool-cases (p x)) [
    | inl kept ↦ rw kept (All-filter (λ y. after x y ≡ false) p xs below, filter-IsSorted p xs h)
    | inr dropped ↦ rw dropped (filter-IsSorted p xs h)
  ]

  -- What is read of such a table stands as it was written.
  pub sort-filter_timed :
      (latest : ℕ) (xs : List A) (p : A → Bool)
      → IsTimed latest xs
      → sort after (filter p xs) ≡ filter p xs
  sort-filter_timed latest xs p t =
      sort-IsSorted_self (filter p xs) (filter-IsSorted p xs t.ordered)

  pub IsTimed-mono :
      (latest now : ℕ) (xs : List A) → latest ≤ now → IsTimed latest xs → IsTimed now xs
  IsTimed-mono latest now xs le t = record {
    ordered = t.ordered;
    bounded = All-mono _ _ xs (λ x b. (omega (arith, le, b.0), b.1)) t.bounded;
  }

  append-IsSorted :
      (xs : List A) (y : A)
      → IsSorted after xs
      → All (λ x. after x y ≡ false) xs
      → IsSorted after (xs ++ (y ∷ []))
  append-IsSorted [] y h k = (tt, tt)
  append-IsSorted (x ∷ xs) y (below, h) (first, k) =
      (All-append (λ z. after x z ≡ false) xs (y ∷ []) below (first, tt), append-IsSorted xs y h k)

  pub IsTimed-append :
      (latest now : ℕ) (xs : List A) (y : A)
      → latest ≤ now
      → IsTimed latest xs
      → time y ≡ now
      → id y ≡ suc (length xs)
      → IsTimed now (xs ++ (y ∷ []))
  IsTimed-append latest now xs y le t at next = record {
    ordered = append-IsSorted xs y t.ordered (
        All-mono _ _ xs (λ x b. let (early, low) = b in ground (arith, le, early, low, at, next))
          t.bounded);
    bounded =
        let long = length-append xs (y ∷ []) in
        All-append _ xs (y ∷ [])
          (All-mono _ _ xs (λ x b. (omega (arith, le, b.0), omega (arith, long, b.1))) t.bounded)
          ((omega (arith, at), omega (arith, long, next)), tt);
  }
