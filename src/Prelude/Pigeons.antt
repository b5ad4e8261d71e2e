-- ===== src/Prelude/Pigeons.antt =====
-- Lists without repetition: appending to them, and how long they can be.
use Prim.Native.Nat.{suc, ◌≤◌}
use mathlib.Core.Path.{◌≡◌, refl}
use mathlib.Core.Bool.{true, false}
use mathlib.Core.Logic.{◌≢◌}
use mathlib.Core.List.{List, [], ◌∷◌, ◌++◌}
use native.Mathlib.Omega.{arith}
use sigil_manager.Prelude.Tests.{if◌then◌else◌}
use sigil_manager.Prelude.Classes.{Eq, ◌==◌}
use sigil_manager.Prelude.Lists.{length, includes, Distinct, All, includes-append}

module _ {ℓ} {A : Type ℓ} ⦃e : Eq A⦄ where
  pub Distinct-concat :
      (xs : List A) (a : A) → Distinct xs → includes xs a ≡ false → Distinct (xs ++ a ∷ [])
  Distinct-concat [] a h k = (refl, tt)
  Distinct-concat (x ∷ xs) a (fresh, h) k = (
    ground (arith, includes-append xs (a ∷ []) x, e.same_iff x a, e.same_iff a x),
    Distinct-concat xs a h (ground arith),
  )

  without : A → List A → List A
  without a [] = []
  without a (x ∷ xs) = let rest = without a xs in if x == a then xs else x ∷ rest

  length-without :
      (a : A) (xs : List A) → includes xs a ≡ true → length xs ≡ suc (length (without a xs))
  unfolding without
  length-without a [] h = ground arith
  length-without a (x ∷ xs) h = ground (arith, length-without a xs)

  includes-without :
      (a b : A) (xs : List A) → includes xs b ≡ true → a ≢ b → includes (without a xs) b ≡ true
  unfolding without
  includes-without a b [] h k = ground arith
  includes-without a b (x ∷ xs) h k =
      ground (arith, includes-without a b xs, e.same_iff x a, e.same_iff x b)

  All-without :
      (a : A) (xs ys : List A)
      → includes xs a ≡ false
      → All (λ x. includes ys x ≡ true) xs
      → All (λ x. includes (without a ys) x ≡ true) xs
  All-without a [] ys h k = tt
  All-without a (x ∷ xs) ys h (here, k) = (
    includes-without a x ys here (λ same. ground (arith, e.same_iff x a)),
    All-without a xs ys (ground arith) k,
  )

  -- Distinct values that all stand in a list are at most as many as the list is long.
  pub length-le_of_Distinct :
      (xs ys : List A) → Distinct xs → All (λ x. includes ys x ≡ true) xs → length xs ≤ length ys
  length-le_of_Distinct [] ys h k = ground arith
  length-le_of_Distinct (x ∷ xs) ys (fresh, h) (here, k) = ground (
    arith,
    length-without x ys here,
    length-le_of_Distinct xs (without x ys) h (All-without x xs ys fresh k),
  )
