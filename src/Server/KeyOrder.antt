-- ===== src/Server/KeyOrder.antt =====
-- The order of rows in `ListByStatus` of internal/triage/repo.go: the latest change first, then by host
-- and event. The database compares texts by their bytes, which is by their code points.
use sigil_manager.Prelude.{
  ℕ, String, Bool, true, false, List, [], ◌∷◌, ◌≡◌, refl, arith, ltb, eqb, ◌&&◌, ◌||◌, ◌==◌,
  string_eq, eq_iff, chars, map, units_less,
}
use Prim.Native.Char.{code}
use Prim.Native.String.{[], ◌∷◌}
use text.Mathlib.TextEquality.{codes_equal}
use text.Mathlib.TextPositions.{compare_self}
use sigil_manager.Prelude.TextOrder.{units_less-asym, units_less_trans}
use sigil_manager.Prelude.Sort.{IsConsistent}

abbrev codes : String → List ℕ
codes s = map code (chars s)

-- `s < t`, in the database.
unfoldable pub text_less : String → String → Bool
text_less s t = units_less (codes s) (codes t)

units_less-connex : (xs ys : List ℕ) → units_less xs ys ≡ false → units_less ys xs ≡ false → xs ≡ ys
unfolding units_less
units_less-connex [] [] h k = refl
units_less-connex [] (y ∷ ys) h k = absurd (ground arith)
units_less-connex (x ∷ xs) [] h k = absurd (ground arith)
units_less-connex (x ∷ xs) (y ∷ ys) h k = ground (arith, units_less-connex xs ys)

codes-inj : (s t : String) → codes s ≡ codes t → s ≡ t
codes-inj [] [] e = refl
codes-inj [] (d ∷ t) e = absurd cc
codes-inj (c ∷ s) [] e = absurd cc
codes-inj (c ∷ s) (d ∷ t) e =
    let first : code c ≡ code d = cc in
    let rest : codes s ≡ codes t = cc in
    let same : c ≡ d = codes_equal c d (rw first (compare_self (code d))) in
    λ i. String.◌∷◌ (same i) (codes-inj s t rest i)

text_less-asym : (s t : String) → text_less s t ≡ true → text_less t s ≡ false
unfolding text_less
text_less-asym s t h = units_less-asym (codes s) (codes t) h

text_less_trans :
    (s t u : String) → text_less s t ≡ false → text_less t u ≡ false → text_less s u ≡ false
unfolding text_less
text_less_trans s t u h k = units_less_trans (codes s) (codes t) (codes u) h k

text_less-connex : (s t : String) → text_less s t ≡ false → text_less t s ≡ false → s ≡ t
unfolding text_less
text_less-connex s t h k = codes-inj s t (units_less-connex (codes s) (codes t) h k)

text_less_irrefl : (s : String) → text_less s s ≡ false
text_less_irrefl s = ground (arith, text_less-asym s s)

-- `(host_id, event_id) > (?, ?)`
unfoldable pub later_pair : (host event h e : String) → Bool
later_pair host event h e = text_less host h || (host == h && text_less event e)

later_pair-asym : (a b c d : String) → later_pair a b c d ≡ true → later_pair c d a b ≡ false
unfolding later_pair
later_pair-asym a b c d h =
    ground
      (arith, text_less-asym a c, text_less-asym b d, eq_iff a c, eq_iff c a, text_less_irrefl a)

later_pair_trans :
    (a b c d e f : String)
    → later_pair a b c d ≡ false
    → later_pair c d e f ≡ false
    → later_pair a b e f ≡ false
unfolding later_pair
later_pair_trans a b c d e f h k = ground (
  arith,
  text_less_trans a c e,
  text_less_trans b d f,
  text_less-connex a c,
  text_less-connex c e,
  text_less_trans c a e,
  text_less_trans a e c,
  eq_iff a c,
  eq_iff c e,
  eq_iff a e,
)

later_pair-connex :
    (a b c d : String) → later_pair a b c d ≡ false → later_pair c d a b ≡ false → (a ≡ c) × (b ≡ d)
unfolding later_pair
later_pair-connex a b c d h k =
    ground (arith, text_less-connex a c, text_less-connex b d, eq_iff a c, eq_iff c a)

-- `(updated_at, host_id, event_id)`
pub record Key : Type 0 where
  pub updated_at : ℕ
  pub host_id : String
  pub event_id : String

-- Whether the second key stands past the first.
abbrev pub past : Key → Key → Bool
past c k =
    ltb k.updated_at c.updated_at
    || (eqb k.updated_at c.updated_at && later_pair c.host_id c.event_id k.host_id k.event_id)

pub past-IsConsistent : IsConsistent (λ a b. past b a)
past-IsConsistent = record {
  asym = λ x y h. ground (arith, later_pair-asym y.host_id y.event_id x.host_id x.event_id);
  trans = λ x y z h k.
      ground
        (arith, later_pair_trans z.host_id z.event_id y.host_id y.event_id x.host_id x.event_id);
}

-- Of two keys neither of which is past the other, the parts are equal.
pub past-connex :
    (a b : Key)
    → past a b ≡ false
    → past b a ≡ false
    → (a.updated_at ≡ b.updated_at) × (a.host_id ≡ b.host_id) × (a.event_id ≡ b.event_id)
past-connex a b h k = ground (arith, later_pair-connex a.host_id a.event_id b.host_id b.event_id)
