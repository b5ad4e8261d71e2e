-- ===== src/Prelude/TextOrder.antt =====
-- The order of texts by their units: total, so that comparisons built from it are consistent.
use mathlib.Core.Path.{◌≡◌}
use mathlib.Core.Bool.{true, false}
use mathlib.Core.List.{List, [], ◌∷◌}
use Prim.Native.Nat.{ℕ}
use Prim.Native.String.{String}
use native.Mathlib.Omega.{arith}
use sigil_manager.Prelude.Text.{units, units_less, less}

pub units_less-asym : (xs ys : List ℕ) → units_less xs ys ≡ true → units_less ys xs ≡ false
unfolding units_less
units_less-asym xs [] h = ground arith
units_less-asym [] (y ∷ ys) h = ground arith
units_less-asym (x ∷ xs) (y ∷ ys) h = ground (arith, units_less-asym xs ys)

pub units_less_trans :
    (xs ys zs : List ℕ)
    → units_less xs ys ≡ false
    → units_less ys zs ≡ false
    → units_less xs zs ≡ false
unfolding units_less
units_less_trans xs ys [] h k = ground arith
units_less_trans [] [] (z ∷ zs) h k = ground arith
units_less_trans (x ∷ xs) [] (z ∷ zs) h k = ground arith
units_less_trans [] (y ∷ ys) (z ∷ zs) h k = ground arith
units_less_trans (x ∷ xs) (y ∷ ys) (z ∷ zs) h k = ground (arith, units_less_trans xs ys zs)

pub less-asym : (s t : String) → less s t ≡ true → less t s ≡ false
unfolding less
less-asym s t h = units_less-asym (units s) (units t) h

pub less_trans : (s t u : String) → less s t ≡ false → less t u ≡ false → less s u ≡ false
unfolding less
less_trans s t u h k = units_less_trans (units s) (units t) (units u) h k
