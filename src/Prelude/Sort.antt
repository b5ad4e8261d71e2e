-- ===== src/Prelude/Sort.antt =====
-- `xs.sort(compare)`: a stable sort. The language fixes the result where the comparison is
-- consistent, and this is that result.
pub mod Names
use Prim.Native.Nat.{suc}
use mathlib.Core.Path.{◌≡◌, refl, ◌∙◌, ap}
use mathlib.Core.Bool.{Bool, true, false, not, ◌&&◌}
use mathlib.Core.Logic.{inl, inr}
use mathlib.Core.List.{List, [], ◌∷◌, Perm}
use mathlib.Core.List.Perm
use native.Mathlib.Omega.{arith}
use sigil_manager.Prelude.Tests.{if◌then◌else◌, Bool-cases}
use sigil_manager.Prelude.Lists.{All, filter, length}

module _ {ℓ} {A : Type ℓ} (after : A → A → Bool) where
  unfoldable pub insert_sorted : A → List A → List A
  insert_sorted x [] = x ∷ []
  insert_sorted x (y ∷ ys) =
      let rest = insert_sorted x ys in if after x y then y ∷ rest else x ∷ y ∷ ys

  -- `after x y` says that the comparison of `x` with `y` is positive.
  unfoldable pub sort : List A → List A
  unfolding insert_sorted
  sort [] = []
  sort (x ∷ xs) = insert_sorted x (sort xs)

  -- A consistent comparison.
  pub record IsConsistent : Type ℓ where
    pub asym : (x y : A) → after x y ≡ true → after y x ≡ false
    pub trans : (x y z : A) → after x y ≡ false → after y z ≡ false → after x z ≡ false

  -- No element comes after one that follows it.
  abbrev pub IsSorted : List A → Type ℓ
  IsSorted [] = Unit
  IsSorted (x ∷ xs) = All (λ y. after x y ≡ false) xs × IsSorted xs

  -- The elements that the comparison does not tell from `k`.
  abbrev pub level : A → A → Bool
  level k x = not (after k x) && not (after x k)

  insert_sorted-perm : (x : A) (l : List A) → Perm (insert_sorted x l) (x ∷ l)
  unfolding insert_sorted
  insert_sorted-perm x [] = Perm.rfl
  insert_sorted-perm x (y ∷ ys) = elim (Bool-cases (after x y)) [
    | inl late ↦
        rw (late, insert_sorted)
          (Perm.trans (Perm.cons y (insert_sorted-perm x ys)) (Perm.swap x y ys))
    | inr first ↦ rw (first, insert_sorted) Perm.rfl
  ]

  -- Sorting rearranges.
  pub sort-perm : (l : List A) → Perm (sort l) l
  unfolding sort
  sort-perm [] = Perm.rfl
  sort-perm (x ∷ l) = Perm.trans (insert_sorted-perm x (sort l)) (Perm.cons x (sort-perm l))

  length-insert_sorted : (x : A) (l : List A) → length (insert_sorted x l) ≡ suc (length l)
  unfolding insert_sorted
  length-insert_sorted x [] = refl
  length-insert_sorted x (y ∷ ys) = ground (arith, length-insert_sorted x ys)

  pub length-sort : (l : List A) → length (sort l) ≡ length l
  unfolding sort
  length-sort [] = refl
  length-sort (x ∷ l) = length-insert_sorted x (sort l) ∙ ap suc (length-sort l)

  All-insert_sorted {κ} :
      (P : A → Type κ) (x : A) (l : List A) → P x → All P l → All P (insert_sorted x l)
  unfolding insert_sorted
  All-insert_sorted P x [] h k = (h, tt)
  All-insert_sorted P x (y ∷ ys) h k = elim (Bool-cases (after x y)) [
    | inl late ↦ rw (late, insert_sorted) (k.0, All-insert_sorted P x ys h k.1)
    | inr first ↦ rw (first, insert_sorted) (h, k)
  ]

  pub All-sort {κ} : (P : A → Type κ) (l : List A) → All P l → All P (sort l)
  unfolding sort
  All-sort P [] h = tt
  All-sort P (x ∷ l) h = All-insert_sorted P x (sort l) h.0 (All-sort P l h.1)

  module _ (c : IsConsistent) where
    All-after :
        (x y : A) (l : List A)
        → after x y ≡ false
        → All (λ z. after y z ≡ false) l
        → All (λ z. after x z ≡ false) l
    All-after x y [] h k = tt
    All-after x y (z ∷ l) h k = (c.trans x y z h k.0, All-after x y l h k.1)

    insert_sorted-IsSorted : (x : A) (l : List A) → IsSorted l → IsSorted (insert_sorted x l)
    unfolding insert_sorted
    insert_sorted-IsSorted x [] h = (tt, tt)
    insert_sorted-IsSorted x (y ∷ ys) (below, h) = elim (Bool-cases (after x y)) [
      | inl late ↦
          rw (late, insert_sorted)
            (
              All-insert_sorted (λ z. after y z ≡ false) x ys (c.asym x y late) below,
              insert_sorted-IsSorted x ys h,
            )
      | inr first ↦ rw (first, insert_sorted) ((first, All-after x y ys first below), (below, h))
    ]

    -- Sorting by a consistent comparison sorts.
    pub sort-IsSorted : (l : List A) → IsSorted (sort l)
    unfolding sort
    sort-IsSorted [] = tt
    sort-IsSorted (x ∷ l) = insert_sorted-IsSorted x (sort l) (sort-IsSorted l)

    -- What comes after `x` is not level with what `x` is level with.
    level-after : (k x y : A) → level k x ≡ true → after x y ≡ true → level k y ≡ false
    level-after k x y h late = elim (Bool-cases (level k y)) [
      | inl same ↦ absurd (ground (arith, c.trans x k y))
      | inr other ↦ other
    ]

    filter-insert_sorted :
        (k x : A) (l : List A) → filter (level k) (insert_sorted x l) ≡ filter (level k) (x ∷ l)
    unfolding insert_sorted
    filter-insert_sorted k x [] = refl
    filter-insert_sorted k x (y ∷ ys) = elim (Bool-cases (after x y)) [
      | inl late ↦
          rw (late, insert_sorted)
            (elim (Bool-cases (level k x)) [
              | inl same ↦
                  let other = level-after k x y same late in
                  rw (other, same) (filter-insert_sorted k x ys ∙ rw same)
              | inr other ↦ rw other (rw (filter-insert_sorted k x ys) (rw other))
            ])
      | inr first ↦ rw (first, insert_sorted) refl
    ]

    -- Sorting by a consistent comparison keeps the order of what it does not tell apart.
    pub sort_stable : (k : A) (l : List A) → filter (level k) (sort l) ≡ filter (level k) l
    unfolding sort
    sort_stable k [] = refl
    sort_stable k (x ∷ l) =
        filter-insert_sorted k x (sort l)
        ∙ ap (λ rest. if level k x then x ∷ rest else rest) (sort_stable k l)
