-- ===== src/Prelude/Splitting.antt =====
-- Splitting a text at a separator: what the parts are, and that joined parts are found again.
use Prim.Native.Nat.{ℕ}
use Prim.Native.Char.{Char, code}
use Prim.Native.String.{String, [], ◌∷◌, ◌++◌}
use mathlib.Core.Path.{◌≡◌, refl, ap, ◌∙◌}
use mathlib.Core.Logic.{◌≢◌, inl, inr}
use mathlib.Core.List.{List, [], ◌∷◌, reverse_aux}
use native.Mathlib.Omega.{arith}
use text.Mathlib.TextLemmas.{nil-append, cons-append, append-nil}
use sigil_manager.Prelude.Tests.{eqb, Bool-cases}
use sigil_manager.Prelude.Lists.{All}
use sigil_manager.Prelude.Text.{chars, of_chars, split, split_from, join, template}

pub of_chars-chars : (s : String) → of_chars (chars s) ≡ s
of_chars-chars [] = refl
of_chars-chars (c ∷ s) = ap (λ t. String.◌∷◌ c t) (of_chars-chars s)

pub chars-of_chars : (cs : List Char) → chars (of_chars cs) ≡ cs
chars-of_chars [] = refl
chars-of_chars (c ∷ cs) = ap (λ t. c ∷ t) (chars-of_chars cs)

pub joined : (c : Char) (s t : String) → template (s ∷ String.◌∷◌ c "" ∷ t ∷ []) ≡ s ++ (c ∷ t)
joined c s t = rw (append-nil t, cons-append c "" t, nil-append t) refl

module _ (sep : ℕ) where
  -- No character of the text is the separator.
  abbrev pub IsPlain : List Char → Type 0
  IsPlain cs = All (λ c. code c ≢ sep) cs

  split_from-plain :
      (cur : List Char) (s : String)
      → IsPlain (chars s)
      → split_from sep cur s ≡ of_chars (reverse_aux cur (chars s)) ∷ []
  unfolding split_from
  split_from-plain cur [] h = refl
  split_from-plain cur (c ∷ s) h = ground (arith, h.0, split_from-plain (c ∷ cur) s h.1)

  split_from-joined :
      (cur : List Char) (s : String) (c : Char) (t : String)
      → code c ≡ sep
      → IsPlain (chars s)
      → split_from sep cur (s ++ (c ∷ t)) ≡ of_chars (reverse_aux cur (chars s)) ∷ split sep t
  unfolding split_from split
  split_from-joined cur [] c t e h = rw (nil-append (c ∷ t)) (ground (arith, e))
  split_from-joined cur (d ∷ s) c t e h =
      rw (cons-append d s (c ∷ t)) (ground (arith, h.0, split_from-joined (d ∷ cur) s c t e h.1))

  -- A text without the separator is its own only part.
  pub split-plain : (s : String) → IsPlain (chars s) → split sep s ≡ s ∷ []
  unfolding split
  split-plain s h = split_from-plain [] s h ∙ ap (λ t. t ∷ []) (of_chars-chars s)

  -- The part before a separator, and the parts after it.
  pub split-joined :
      (s : String) (c : Char) (t : String)
      → code c ≡ sep
      → IsPlain (chars s)
      → split sep (s ++ (c ∷ t)) ≡ s ∷ split sep t
  unfolding split
  split-joined s c t e h =
      split_from-joined [] s c t e h ∙ ap (λ u. u ∷ split sep t) (of_chars-chars s)

  IsPlain-reverse_aux : (xs ys : List Char) → IsPlain xs → IsPlain ys → IsPlain (reverse_aux xs ys)
  IsPlain-reverse_aux [] ys h k = k
  IsPlain-reverse_aux (x ∷ xs) ys h k = IsPlain-reverse_aux xs (x ∷ ys) h.1 (h.0, k)

  split_from-IsPlain :
      (cur : List Char) (s : String)
      → IsPlain cur
      → All (λ t. IsPlain (chars t)) (split_from sep cur s)
  unfolding split_from
  split_from-IsPlain cur [] h = (rw (chars-of_chars) (IsPlain-reverse_aux cur [] h tt), tt)
  split_from-IsPlain cur (c ∷ s) h = elim (Bool-cases (eqb (code c) sep)) [
    | inl is_sep ↦
        rw (is_sep, chars-of_chars) (IsPlain-reverse_aux cur [] h tt, split_from-IsPlain [] s tt)
    | inr other ↦ rw other (split_from-IsPlain (c ∷ cur) s (ground arith, h))
  ]

  -- No part contains the separator.
  pub split-IsPlain : (s : String) → All (λ t. IsPlain (chars t)) (split sep s)
  unfolding split
  split-IsPlain s = split_from-IsPlain [] s tt

  -- Parts that are joined at the separator are found again.
  pub split-join :
      (c : Char) (s : String) (ss : List String)
      → code c ≡ sep
      → All (λ t. IsPlain (chars t)) (s ∷ ss)
      → split sep (join (String.◌∷◌ c "") (s ∷ ss)) ≡ s ∷ ss
  unfolding join
  split-join c s [] e h = split-plain s h.0
  split-join c s (t ∷ ss) e h =
      ap (split sep) (joined c s (join (String.◌∷◌ c "") (t ∷ ss)))
      ∙ split-joined s c (join (String.◌∷◌ c "") (t ∷ ss)) e h.0
      ∙ ap (λ us. s ∷ us) (split-join c t ss e h.1)
