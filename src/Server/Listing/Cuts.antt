-- ===== src/Server/Listing/Cuts.antt =====
-- The pages that `ListByStatus` of internal/triage/repo.go cuts, by their size.
use sigil_manager.Prelude.{
  ℕ, zero, suc, String, true, false, some, List, [], ◌∷◌, ◌++◌, ◌≡◌, refl, ap, inl, inr, arith, ltb,
  Bool-cases, filter, length,
}
use sigil_manager.Server.{Row}
use sigil_manager.Server.Listing.{clamp_limit, key_of, page_of, encode_cursor, take, last}
use sigil_manager.Server.Listing.Pages.{take_one_more, take-take, take-all}

pub filter-true : {A : Type 0} (xs : List A) → filter (λ x. true) xs ≡ xs
filter-true [] = refl
filter-true (x ∷ xs) = ap (λ l. x ∷ l) (filter-true xs)

pub clamp_limit-suc : (n : ℕ) → (m : ℕ) × (clamp_limit n ≡ suc m)
unfolding clamp_limit
clamp_limit-suc zero = (49, refl)
clamp_limit-suc (suc n) = elim (Bool-cases (ltb 1000 (suc n))) [
  | inl high ↦ (999, ground (arith, high))
  | inr low ↦ (n, ground (arith, low))
]

module _ (format_ts : ℕ → String) (n : ℕ) (left : List Row) where
  -- Where what is left fits on a page, it is the last one.
  pub page_of-last :
      ltb n (length left) ≡ false
      → page_of format_ts n (take (suc n) left) ≡ record { rows = left; next_cursor = "" }
  page_of-last fits =
      rw (take_one_more n left, fits)
        (ap (λ rows. record { rows = rows; next_cursor = "" })
          (take-all (suc n) left (ground arith)))

  pub page_of-full :
      (page : List Row) (k : Row)
      → ltb n (length left) ≡ true
      → take n left ≡ page ++ (k ∷ [])
      → last (page ++ (k ∷ [])) ≡ some k
      → page_of format_ts n (take (suc n) left)
        ≡ record { rows = page ++ (k ∷ []); next_cursor = encode_cursor format_ts (key_of k) }
  page_of-full page k more taken end =
      rw (take_one_more n left, more, take-take n left, taken, end) refl
