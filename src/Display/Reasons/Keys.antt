-- ===== src/Display/Reasons/Keys.antt =====
-- The items of a list of reasons have different keys.
use sigil_manager.Prelude.{
  ℕ, ◌+◌, ◌≤◌, String, List, [], ◌∷◌, ◌≡◌, ◌≢◌, ap, arith, ◌==◌, string_eq, eq_iff, eq_refl, All,
  Bool-cases, inl, inr,
}
use sigil_manager.Api.Fleet.{ReasonLike}
use sigil_manager.Display.Reasons.{Occurrences, bump, reason_keys}

-- No key is among those after it.
abbrev pub AreDistinct : List (String × ℕ) → Type 0
AreDistinct [] = Unit
AreDistinct (k ∷ ks) = All (λ j. j ≢ k) ks × AreDistinct ks

All-weaken :
    {A : Type 0} (P Q : A → Type 0) (xs : List A) → ((x : A) → P x → Q x) → All P xs → All Q xs
All-weaken P Q [] f h = tt
All-weaken P Q (x ∷ xs) f h = (f x h.0, All-weaken P Q xs f h.1)

bump-le : (k j : String) (seen : Occurrences) → seen j ≤ bump k seen j
unfolding bump
bump-le k j seen = elim (Bool-cases (j == k)) [
  | inl same ↦ ground (arith, ap seen ((eq_iff j k).0 same))
  | inr other ↦ ground arith
]

bump_self : (k : String) (seen : Occurrences) → bump k seen k ≡ seen k + 1
unfolding bump
bump_self k seen = ground (arith, eq_refl k)

module _ (identity : ReasonLike → String) where
  -- Every key counts from what has come before.
  reason_keys-le :
      (seen : Occurrences) (reasons : List ReasonLike)
      → All (λ key. seen key.0 ≤ key.1) (reason_keys identity seen reasons)
  unfolding reason_keys
  reason_keys-le seen [] = tt
  reason_keys-le seen (reason ∷ reasons) =
      let k = identity reason in
      (
        omega arith,
        All-weaken _ _ (reason_keys identity (bump k seen) reasons)
            (λ key h. omega (arith, h, bump-le k key.0 seen))
            (reason_keys-le (bump k seen) reasons),
      )

  -- The items of a list have different keys, even where two reasons are the same.
  pub reason_keys-AreDistinct :
      (seen : Occurrences) (reasons : List ReasonLike)
      → AreDistinct (reason_keys identity seen reasons)
  unfolding reason_keys
  reason_keys-AreDistinct seen [] = tt
  reason_keys-AreDistinct seen (reason ∷ reasons) =
      let k = identity reason in
      (
        All-weaken _ _ (reason_keys identity (bump k seen) reasons)
            (λ key h same. past k seen key h same) (reason_keys-le (bump k seen) reasons),
        reason_keys-AreDistinct (bump k seen) reasons,
      )
    where
      past :
          (k : String) (seen : Occurrences) (key : String × ℕ)
          → bump k seen key.0 ≤ key.1
          → key ≡ (k, seen k)
          → ⊥
      past k seen key h same =
          let count : bump k seen key.0 ≡ bump k seen k = ap (λ p. bump k seen p.0) same in
          let number : key.1 ≡ seen k = ap (λ p. p.1) same in
          omega (arith, h, count, number, bump_self k seen)
