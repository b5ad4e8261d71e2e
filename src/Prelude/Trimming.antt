-- ===== src/Prelude/Trimming.antt =====
-- Texts that trimming leaves as they are.
use Prim.Native.Char.{Char, code}
use Prim.Native.String.{String, [], ◌∷◌, ◌++◌}
use mathlib.Core.Path.{◌≡◌, refl, sym, ap, ◌∙◌, subst}
use mathlib.Core.Bool.{true, false}
use mathlib.Core.Logic.{◌⊎◌, inl, inr}
use text.Mathlib.TextEquality.{eq_iff}
use mathlib.Core.List
use mathlib.Core.List.{List, [], ◌∷◌, reverse, reverse-append, reverse-reverse}
use text.Mathlib.TextLemmas.{nil-append, cons-append}
use sigil_manager.Prelude.Tests.{Bool-cases}
use sigil_manager.Prelude.Classes.{string_eq, ◌==◌}
use sigil_manager.Prelude.Lists.{All}
use sigil_manager.Prelude.Text.{chars, of_chars, join, truthy, trim, drop_spaces, is_space}
use sigil_manager.Prelude.Splitting.{of_chars-chars, chars-of_chars, joined}

-- The first character is there, and is no space.
abbrev pub BeginsSolid : List Char → Type 0
BeginsSolid [] = ⊥
BeginsSolid (c ∷ cs) = is_space (code c) ≡ false

-- The text has a character, and neither begins nor ends with a space.
abbrev pub IsSolid : String → Type 0
IsSolid s = BeginsSolid (chars s) × BeginsSolid (reverse (chars s))

pub BeginsSolid-append : (xs ys : List Char) → BeginsSolid xs → BeginsSolid (List.◌++◌ xs ys)
BeginsSolid-append [] ys h = absurd h
BeginsSolid-append (x ∷ xs) ys h = h

drop_spaces-BeginsSolid : (cs : List Char) → BeginsSolid cs → drop_spaces cs ≡ cs
unfolding drop_spaces
drop_spaces-BeginsSolid [] h = absurd h
drop_spaces-BeginsSolid (c ∷ cs) h = rw h refl

pub trim-IsSolid : (s : String) → IsSolid s → trim s ≡ s
unfolding trim
trim-IsSolid s (front, back) =
    rw (drop_spaces-BeginsSolid (chars s) front, drop_spaces-BeginsSolid (reverse (chars s)) back)
      (ap of_chars (reverse-reverse (chars s)) ∙ of_chars-chars s)

pub truthy-IsSolid : (s : String) → IsSolid s → truthy s ≡ true
truthy-IsSolid s h = elim (Bool-cases (s == "")) [
  | inl empty ↦ absurd (subst (λ t. BeginsSolid (chars t)) ((eq_iff s "").0 empty) h.0)
  | inr given ↦ rw given refl
]

chars-append : (s t : String) → chars (s ++ t) ≡ List.◌++◌ (chars s) (chars t)
chars-append [] t = ap chars (nil-append t)
chars-append (c ∷ s) t = ap chars (cons-append c s t) ∙ ap (λ cs. c ∷ cs) (chars-append s t)

-- A character in front keeps a text solid, if it is no space.
pub cons-IsSolid :
    (c : Char) (s : String) → is_space (code c) ≡ false → IsSolid s → IsSolid (String.◌∷◌ c s)
cons-IsSolid c s front h = (
  front,
  rw (reverse-append (c ∷ []) (chars s)) (BeginsSolid-append (reverse (chars s)) (c ∷ []) h.1),
)

between-IsSolid :
    (s : String) (c : Char) (t : String) → IsSolid s → IsSolid t → IsSolid (s ++ (c ∷ t))
between-IsSolid s c t h k = rw (chars-append s (c ∷ t)) (
  BeginsSolid-append (chars s) (c ∷ chars t) h.0,
  rw (reverse-append (chars s) (c ∷ chars t), reverse-append (c ∷ []) (chars t))
      (BeginsSolid-append (List.◌++◌ (reverse (chars t)) (c ∷ [])) (reverse (chars s))
        (BeginsSolid-append (reverse (chars t)) (c ∷ []) k.1)),
)

pub join-IsSolid :
    (c : Char) (s : String) (ss : List String)
    → All IsSolid (s ∷ ss)
    → IsSolid (join (String.◌∷◌ c "") (s ∷ ss))
unfolding join
join-IsSolid c s [] h = h.0
join-IsSolid c s (t ∷ ss) h =
    rw (joined c s (join (String.◌∷◌ c "") (t ∷ ss)))
      (between-IsSolid s c (join (String.◌∷◌ c "") (t ∷ ss)) h.0 (join-IsSolid c t ss h.1))

drop_spaces-cases : (cs : List Char) → (drop_spaces cs ≡ []) ⊎ BeginsSolid (drop_spaces cs)
unfolding drop_spaces
drop_spaces-cases [] = inl refl
drop_spaces-cases (c ∷ cs) = elim (Bool-cases (is_space (code c))) [
  | inl space ↦ rw space (drop_spaces-cases cs)
  | inr solid ↦ rw solid (inr solid)
]

-- What is left is an end of what was there.
drop_spaces-suffix :
    (cs : List Char) → (front : List Char) × (cs ≡ List.◌++◌ front (drop_spaces cs))
unfolding drop_spaces
drop_spaces-suffix [] = ([], refl)
drop_spaces-suffix (c ∷ cs) = elim (Bool-cases (is_space (code c))) [
  | inl space ↦ let (front, e) = drop_spaces-suffix cs in rw space (c ∷ front, ap (λ ds. c ∷ ds) e)
  | inr solid ↦ rw solid ([], refl)
]

BeginsSolid-front : (xs ys : List Char) → BeginsSolid (List.◌++◌ xs ys) → (xs ≡ []) ⊎ BeginsSolid xs
BeginsSolid-front [] ys h = inl refl
BeginsSolid-front (x ∷ xs) ys h = inr h

-- Dropping the spaces at the other end leaves nothing, or a list that is solid at both ends.
dropped_twice :
    (ds : List Char)
    → BeginsSolid ds
    → let es = drop_spaces (reverse ds) in
      (reverse es ≡ []) ⊎ (BeginsSolid (reverse es) × BeginsSolid es)
dropped_twice ds h =
    let (front, e) = drop_spaces-suffix (reverse ds) in
    let es = drop_spaces (reverse ds) in
    let whole : ds ≡ List.◌++◌ (reverse es) (reverse front) =
      sym (reverse-reverse ds) ∙ ap reverse e ∙ reverse-append front es in
    elim (drop_spaces-cases (reverse ds)) [
      | inl none_left ↦ inl (ap reverse none_left)
      | inr back ↦
          elim (BeginsSolid-front (reverse es) (reverse front) (subst BeginsSolid whole h)) [
            | inl empty ↦ inl empty
            | inr ahead ↦ inr (ahead, back)
          ]
    ]

-- A trimmed text is empty, or trimming leaves it as it is.
trimmed-IsSolid : (s : String) → (trim s ≡ "") ⊎ IsSolid (trim s)
unfolding trim
trimmed-IsSolid s = elim (drop_spaces-cases (chars s)) [
  | inl nothing ↦ inl (rw nothing refl)
  | inr front ↦ elim (dropped_twice (drop_spaces (chars s)) front) [
    | inl nothing ↦ inl (ap of_chars nothing)
    | inr (ahead, back) ↦
        let es = drop_spaces (reverse (drop_spaces (chars s))) in
        inr (
          subst BeginsSolid (sym (chars-of_chars (reverse es))) ahead,
          subst BeginsSolid (sym (ap reverse (chars-of_chars (reverse es)) ∙ reverse-reverse es))
              back,
        )
  ]
]

pub trim_idem : (s : String) → trim (trim s) ≡ trim s
trim_idem s = elim (trimmed-IsSolid s) [
  | inl empty ↦ rw empty (unfold trim in refl)
  | inr solid ↦ trim-IsSolid (trim s) solid
]
