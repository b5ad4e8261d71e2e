-- ===== src/Prelude/Classes.antt =====
-- Decidable equality as an interface, `===` of the source at one type.
use Prim.Native.Nat.{ℕ}
use Prim.Native.String.{String}
use mathlib.Core.Path.{◌≡◌}
use mathlib.Core.Logic.{◌↔◌}
use mathlib.Core.Bool.{Bool, true}
use native.Mathlib.Omega.{arith}
use text.Mathlib.Text.{◌==◌ as str_eq}
use text.Mathlib.TextEquality.{eq_iff}
use sigil_manager.Prelude.Tests.{eqb}

-- A type with a test of sameness that is right.
pub record Eq {ℓ} (T : Type ℓ) : Type ℓ where
  pub is_same : T → T → Bool
  pub same_iff : (x y : T) → (is_same x y ≡ true) ↔ (x ≡ y)

pub eqb_iff : (m n : ℕ) → (eqb m n ≡ true) ↔ (m ≡ n)
eqb_iff m n = ground arith

-- Texts and numbers are compared by their values.
instance abbrev pub string_eq : Eq String
string_eq = record { is_same = str_eq; same_iff = eq_iff }

instance abbrev pub nat_eq : Eq ℕ
nat_eq = record { is_same = eqb; same_iff = eqb_iff }

-- `x === y` at any type that has one.
infix 50 ◌==◌
abbrev pub ◌==◌ {ℓ} : {T : Type ℓ} ⦃same : Eq T⦄ → T → T → Bool
◌==◌ ⦃same⦄ x y = same.is_same x y
