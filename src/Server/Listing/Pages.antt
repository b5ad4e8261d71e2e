-- ===== src/Server/Listing/Pages.antt =====
-- Pages of a strictly sorted list, each from where the one before it ended, as in `ListByStatus` of
-- internal/triage/repo.go.
use sigil_manager.Prelude.{
  ℕ, zero, suc, ◌+◌, ◌≤◌, Bool, true, false, some, List, [], ◌∷◌, ◌++◌, ◌≡◌, refl, sym, ap, ◌∙◌,
  inl, inr, arith, if◌then◌else◌, Bool-cases, filter, length, ltb, All, All-filter,
}
use sigil_manager.Prelude.Sort.{sort, insert_sorted, IsSorted, IsConsistent, sort-IsSorted}
use sigil_manager.Server.Listing.{take, last}

module _ {A : Type 0} (after : A → A → Bool) where
  -- Every element stands past those before it.
  abbrev pub IsStrict : List A → Type 0
  IsStrict [] = Unit
  IsStrict (x ∷ xs) = All (λ y. after y x ≡ true) xs × IsStrict xs

  module _ (c : IsConsistent after) where
    insert-head :
        (x : A) (l : List A) → All (λ y. after x y ≡ false) l → insert_sorted after x l ≡ x ∷ l
    unfolding insert_sorted
    insert-head x [] h = refl
    insert-head x (y ∷ ys) h = rw h.0 refl

    All-below :
        (x y : A) (l : List A)
        → after x y ≡ false
        → All (λ z. after y z ≡ false) l
        → All (λ z. after x z ≡ false) l
    All-below x y [] h k = tt
    All-below x y (z ∷ l) h k = (c.trans x y z h k.0, All-below x y l h k.1)

    filter-insert :
        (p : A → Bool) (x : A) (l : List A)
        → IsSorted after l
        → filter p (insert_sorted after x l)
          ≡ (if p x then insert_sorted after x (filter p l) else filter p l)
    unfolding insert_sorted
    filter-insert p x [] h = elim (Bool-cases (p x)) [
      | inl kept ↦ rw kept refl
      | inr dropped ↦ rw dropped refl
    ]
    filter-insert p x (y ∷ ys) (below, h) = elim (Bool-cases (after x y)) [
      | inl late ↦
          rw (late, filter-insert p x ys h)
            (elim (Bool-cases (p x)) [
              | inl kept ↦ elim (Bool-cases (p y)) [
                | inl here ↦ rw (kept, here) (rw (late, insert_sorted) refl)
                | inr gone ↦ rw (kept, gone) refl
              ]
              | inr dropped ↦ rw dropped refl
            ])
      | inr first ↦ rw first (elim (Bool-cases (p x)) [
        | inl kept ↦ rw kept (
            sym (
              insert-head x (filter p (y ∷ ys)) (
                All-filter (λ z. after x z ≡ false) p (y ∷ ys)
                  (first, All-below x y ys first below))))
        | inr dropped ↦ rw dropped refl
      ])
    ]

    -- What a test keeps is sorted as it was.
    pub filter-sort :
        (p : A → Bool) (l : List A) → filter p (sort after l) ≡ sort after (filter p l)
    unfolding sort
    filter-sort p [] = refl
    filter-sort p (x ∷ l) =
        filter-insert p x (sort after l) (sort-IsSorted after c l)
        ∙ rw (filter-sort p l)
            (elim (Bool-cases (p x)) [ inl kept ↦ rw kept refl | inr dropped ↦ rw dropped refl ])

    filter-past-All :
        (k : A) (xs : List A) → All (λ y. after y k ≡ true) xs → filter (λ x. after x k) xs ≡ xs
    filter-past-All k [] h = refl
    filter-past-All k (x ∷ xs) h = rw (h.0, filter-past-All k xs h.1) refl

    pub All-last :
        (P : A → Type 0) (xs : List A) (k : A) (ys : List A) → All P (xs ++ (k ∷ ys)) → P k
    All-last P [] k ys h = h.0
    All-last P (x ∷ xs) k ys h = All-last P xs k ys h.1

    irrefl : (k : A) → after k k ≡ false
    irrefl k = elim (Bool-cases (after k k)) [ inl self ↦ c.asym k k self | inr no_self ↦ no_self ]

    -- Past the last element of a page there is what follows it.
    pub filter-past :
        (xs : List A) (k : A) (ys : List A)
        → IsStrict (xs ++ (k ∷ ys))
        → filter (λ x. after x k) (xs ++ (k ∷ ys)) ≡ ys
    filter-past [] k ys (below, h) = rw (irrefl k) (filter-past-All k ys below)
    filter-past (x ∷ xs) k ys (below, h) =
        rw (c.asym k x (All-last (λ y. after y x ≡ true) xs k ys below)) (filter-past xs k ys h)

module _ {A : Type 0} where
  last-cons :
      (x : A) (page : List A) (k : A) → last (x ∷ (page ++ (k ∷ []))) ≡ last (page ++ (k ∷ []))
  last-cons x [] k = refl
  last-cons x (y ∷ page) k = refl

  -- A full page: its elements, the last of them, and what follows.
  pub take-full :
      (n : ℕ) (xs : List A)
      → suc n ≤ length xs
      → (page : List A) × (k : A) × (rest : List A) × (xs ≡ page ++ (k ∷ rest))
        × (take (suc n) xs ≡ page ++ (k ∷ []))
        × (last (page ++ (k ∷ [])) ≡ some k)
        × (length rest + suc n ≡ length xs)
  take-full n [] h = absurd (omega (arith, h))
  take-full zero (x ∷ xs) h = ([], x, xs, refl, refl, refl, omega arith)
  take-full (suc n) (x ∷ xs) h =
      let (page, k, rest, whole, taken, end, count) = take-full n xs (omega (arith, h)) in
      (
        x ∷ page,
        k,
        rest,
        ap (λ l. x ∷ l) whole,
        ap (λ l. x ∷ l) taken,
        last-cons x page k ∙ end,
        omega (arith, count),
      )

  pub take_one_more : (n : ℕ) (xs : List A) → ltb n (length (take (suc n) xs)) ≡ ltb n (length xs)
  take_one_more zero [] = refl
  take_one_more zero (x ∷ xs) = ground arith
  take_one_more (suc n) [] = refl
  take_one_more (suc n) (x ∷ xs) = ground (arith, take_one_more n xs)

  pub take-take : (n : ℕ) (xs : List A) → take n (take (suc n) xs) ≡ take n xs
  take-take zero xs = refl
  take-take (suc n) [] = refl
  take-take (suc n) (x ∷ xs) = ap (λ l. x ∷ l) (take-take n xs)

  pub take-all : (n : ℕ) (xs : List A) → length xs ≤ n → take n xs ≡ xs
  take-all zero [] h = refl
  take-all zero (x ∷ xs) h = absurd (omega (arith, h))
  take-all (suc n) [] h = refl
  take-all (suc n) (x ∷ xs) h = ap (λ l. x ∷ l) (take-all n xs (omega (arith, h)))
