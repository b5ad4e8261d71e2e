-- ===== src/Paging/Params.antt =====
-- Equality of page parameters: `undefined` or a cursor.
use sigil_manager.Prelude.{
  String, Bool, true, false, Option, none, some, ◌≡◌, ◌↔◌, arith, eq_iff, Eq, ◌==◌, string_eq,
}

abbrev pub param_beq : Option String → Option String → Bool
param_beq none none = true
param_beq (some a) (some b) = a == b
param_beq _ _ = false

pub param_beq_iff : (a b : Option String) → (param_beq a b ≡ true) ↔ (a ≡ b)
param_beq_iff none none = ground arith
param_beq_iff none (some b) = ground arith
param_beq_iff (some a) none = ground arith
param_beq_iff (some a) (some b) = ground (arith, eq_iff a b)

instance abbrev pub param_eq : Eq (Option String)
param_eq = record { is_same = param_beq; same_iff = param_beq_iff }
