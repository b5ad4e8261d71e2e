-- ===== src/Display/Labels/Paths.antt =====
-- The segments of a short path.
use Prim.Native.String
use text.Mathlib.TextLemmas.{nil-append, cons-append, append-nil}
use sigil_manager.Prelude.{
  ℕ, zero, suc, ◌-◌, ◌≤◌, ◌<◌, String, true, false, Option, none, some, List, [], ◌∷◌, ◌≡◌, inl,
  inr, refl, arith, ◌∙◌, ap, sym, if◌then◌else◌, string_eq, length, filter, filter-All, All,
  All-filter, All-filter_self, truthy, join, template, split, chars, leb, Bool-cases, IsPlain,
  split-plain, split-joined, split-IsPlain, eq_iff,
}
use sigil_manager.Display.Labels.{slash, last_two, segments, short_path, slice_from}

-- A segment: not empty, and with no slash.
abbrev IsSegment : String → Type 0
IsSegment s = IsPlain slash (chars s) × (truthy s ≡ true)

All-both :
    {A : Type 0} (P Q : A → Type 0) (xs : List A) → All P xs → All Q xs → All (λ x. P x × Q x) xs
All-both P Q [] h k = tt
All-both P Q (x ∷ xs) h k = ((h.0, k.0), All-both P Q xs h.1 k.1)

segments-IsSegment : (p : String) → All IsSegment (segments p)
segments-IsSegment p =
    All-both _ _ (segments p)
      (All-filter (λ t. IsPlain slash (chars t)) truthy (split slash p) (split-IsPlain slash p))
      (All-filter_self truthy (split slash p))

All-slice_from :
    {A : Type 0} (P : A → Type 0) (n : ℕ) (xs : List A) → All P xs → All P (slice_from n xs)
All-slice_from P zero xs h = h
All-slice_from P (suc n) [] h = tt
All-slice_from P (suc n) (x ∷ xs) h = All-slice_from P n xs h.1

length-slice_from : {A : Type 0} (n : ℕ) (xs : List A) → length (slice_from n xs) ≡ length xs - n
length-slice_from zero xs = omega arith
length-slice_from (suc n) [] = omega arith
length-slice_from (suc n) (x ∷ xs) = omega (arith, length-slice_from n xs)

-- The text that stands for a longer path.
abbrev shortened : List String → String
shortened ss = template ("…/" ∷ join "/" ss ∷ [])

shortened-pair :
    (a b : String)
    → shortened (a ∷ b ∷ []) ≡ String.◌++◌ "…" (String.◌∷◌ "/" (String.◌++◌ a (String.◌∷◌ "/" b)))
unfolding join
shortened-pair a b =
    rw
      (
        append-nil (String.◌++◌ a (String.◌++◌ "/" (String.◌++◌ b ""))),
        append-nil b,
        cons-append "/" "" b,
        nil-append b,
      )
      (longer (String.◌++◌ a (String.◌∷◌ "/" b)))
  where
    longer : (t : String) → String.◌++◌ "…/" t ≡ String.◌++◌ "…" (String.◌∷◌ "/" t)
    longer t =
        rw
          (
            cons-append "…" "/" t,
            cons-append "/" "" t,
            nil-append t,
            cons-append "…" "" (String.◌∷◌ "/" t),
            nil-append (String.◌∷◌ "/" t),
          )
          refl

split-pair :
    (a b : String)
    → IsPlain slash (chars a)
    → IsPlain slash (chars b)
    → split slash (shortened (a ∷ b ∷ [])) ≡ "…" ∷ a ∷ b ∷ []
split-pair a b h k =
    ap (split slash) (shortened-pair a b)
    ∙ split-joined slash "…" "/" (String.◌++◌ a (String.◌∷◌ "/" b)) refl (ground arith, tt)
    ∙ ap (λ ss. "…" ∷ ss) (split-joined slash a "/" b refl h)
    ∙ ap (λ ss. "…" ∷ a ∷ ss) (split-plain slash b k)

segments-pair :
    (a b : String)
    → IsSegment a
    → IsSegment b
    → segments (shortened (a ∷ b ∷ [])) ≡ "…" ∷ a ∷ b ∷ []
segments-pair a b h k =
    ap (filter truthy) (split-pair a b h.0 k.0)
    ∙ filter-All truthy ("…" ∷ a ∷ b ∷ []) (refl, (h.1, (k.1, tt)))

segments-shortened :
    (ss : List String) → All IsSegment ss → length ss ≡ 2 → segments (shortened ss) ≡ "…" ∷ ss
segments-shortened (a ∷ b ∷ []) h l = segments-pair a b h.0 h.1.0
segments-shortened [] h l = absurd (omega (arith, l))
segments-shortened (a ∷ []) h l = absurd (omega (arith, l))
segments-shortened (a ∷ b ∷ c ∷ ss) h l = absurd (omega (arith, l))

empty_of : (p : String) → truthy p ≡ false → p ≡ ""
empty_of p h = ground (arith, eq_iff p "")

short_path-few : (p : String) → length (segments p) ≤ 2 → short_path (some p) ≡ p
unfolding short_path
short_path-few p h = elim (Bool-cases (truthy p)) [
  | inl some_text ↦ ground (arith, some_text)
  | inr empty ↦ rw empty (sym (empty_of p empty))
]

short_path-many :
    (p : String) → 2 < length (segments p) → short_path (some p) ≡ shortened (last_two (segments p))
unfolding short_path split
short_path-many p h = elim (Bool-cases (truthy p)) [
  | inl some_text ↦ ground (arith, some_text)
  | inr empty ↦ absurd (few (ap (λ t. length (segments t)) (empty_of p empty)))
]
  where
    few : length (segments p) ≡ 0 → ⊥
    few e = omega (arith, e, h)

segments-many :
    (p : String)
    → 2 < length (segments p)
    → segments (shortened (last_two (segments p))) ≡ "…" ∷ last_two (segments p)
segments-many p h =
    segments-shortened (last_two (segments p))
      (All-slice_from IsSegment (length (segments p) - 2) (segments p) (segments-IsSegment p))
      (omega (arith, h, length-slice_from (length (segments p) - 2) (segments p)))

-- A short path is the path itself where that has at most two segments; a longer path gives "…" and
-- its last two segments.
pub segments-short_path :
    (p : String)
    → segments (short_path (some p))
      ≡ (if leb (length (segments p)) 2 then segments p else "…" ∷ last_two (segments p))
segments-short_path p = elim (Bool-cases (leb (length (segments p)) 2)) [
  | inl few ↦ rw few (ap segments (short_path-few p (ground arith)))
  | inr many ↦
      rw many (ap segments (short_path-many p (ground arith)) ∙ segments-many p (ground arith))
]

length-last_two : (p : String) → 2 < length (segments p) → length (last_two (segments p)) ≡ 2
length-last_two p h = omega (arith, h, length-slice_from (length (segments p) - 2) (segments p))

-- What is short already is kept: the last two of three segments are those after the first.
last_two-shortened : (x : String) (ss : List String) → length ss ≡ 2 → last_two (x ∷ ss) ≡ ss
last_two-shortened x (a ∷ b ∷ []) l = refl
last_two-shortened x [] l = absurd (omega (arith, l))
last_two-shortened x (a ∷ []) l = absurd (omega (arith, l))
last_two-shortened x (a ∷ b ∷ c ∷ ss) l = absurd (omega (arith, l))

shortened_again :
    (p : String)
    → 2 < length (segments p)
    → short_path (some (shortened (last_two (segments p)))) ≡ shortened (last_two (segments p))
shortened_again p h =
    short_path-many (shortened (last_two (segments p)))
      (rw (segments-many p h) (omega (arith, length-last_two p h)))
    ∙ ap (λ ss. shortened (last_two ss)) (segments-many p h)
    ∙ ap shortened (last_two-shortened "…" (last_two (segments p)) (length-last_two p h))

-- Shortening a short path changes nothing.
pub short_path_idem : (p : Option String) → short_path (some (short_path p)) ≡ short_path p
unfolding short_path split
short_path_idem none = refl
short_path_idem (some p) = elim (Bool-cases (leb (length (segments p)) 2)) [
  | inl few ↦ ap (λ t. short_path (some t)) (short_path-few p (ground arith))
  | inr many ↦ rw (short_path-many p (ground arith)) (shortened_again p (ground arith))
]
