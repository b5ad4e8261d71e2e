-- ===== src/Prelude/Text.antt =====
-- Text: the source's strings are sequences of UTF-16 units; a `String` is the well-formed text that
-- they spell, and `units` gives the sequence back where the order or the length of units counts.
use Prim.Native.Nat.{ℕ, ◌+◌, ◌-◌, ◌/◌, ◌%◌}
use Prim.Native.Char.{Char, code}
use Prim.Native.String
use Prim.Native.String.{String, [], ◌∷◌}
use mathlib.Core.Bool.{Bool, true, false, not, ◌&&◌, ◌||◌}
use mathlib.Core.Option.{Option, none, some}
use mathlib.Core.List.{List, [], ◌∷◌, ◌++◌, reverse}
use sigil_manager.Prelude.Tests.{if◌then◌else◌, ltb, leb, eqb}
use sigil_manager.Prelude.Classes.{string_eq, ◌==◌}

abbrev pub chars : String → List Char
chars [] = []
chars (c ∷ s) = c ∷ chars s

abbrev pub of_chars : List Char → String
of_chars [] = []
of_chars (c ∷ cs) = c ∷ of_chars cs

-- A template literal: its parts, joined.
abbrev pub template : List String → String
template [] = ""
template (s ∷ ss) = String.◌++◌ s (template ss)

-- `ss.join(sep)`
unfoldable pub join : String → List String → String
join sep [] = ""
join sep (s ∷ []) = s
join sep (s ∷ t ∷ ss) = template (s ∷ sep ∷ join sep (t ∷ ss) ∷ [])

-- A text is truthy when it is not empty; so is an optional text that is present and not empty.
abbrev pub truthy : String → Bool
truthy s = not (s == "")

abbrev pub truthy? : Option String → Bool
truthy? none = false
truthy? (some s) = truthy s

-- The UTF-16 units of one code point.
units_of : ℕ → List ℕ
units_of n =
    if ltb n 0x10000
    then n ∷ []
    else (0xd800 + (n - 0x10000) / 0x400) ∷ (0xdc00 + (n - 0x10000) % 0x400) ∷ []

unfoldable pub units : String → List ℕ
unfolding units_of
units [] = []
units (c ∷ s) = units_of (code c) ++ units s

-- `s < t`, by units.
unfoldable pub units_less : List ℕ → List ℕ → Bool
units_less xs [] = false
units_less [] (y ∷ ys) = true
units_less (x ∷ xs) (y ∷ ys) = let rest = units_less xs ys in if eqb x y then rest else ltb x y

unfoldable pub less : String → String → Bool
unfolding units_less units
less s t = units_less (units s) (units t)

-- White space and line terminators, as `trim` strips them.
unfoldable pub is_space : ℕ → Bool
is_space n =
    (leb 9 n && leb n 13)
    || eqb n 0x20
    || eqb n 0xa0
    || eqb n 0x1680
    || (leb 0x2000 n && leb n 0x200a)
    || eqb n 0x2028
    || eqb n 0x2029
    || eqb n 0x202f
    || eqb n 0x205f
    || eqb n 0x3000
    || eqb n 0xfeff

unfoldable pub drop_spaces : List Char → List Char
drop_spaces [] = []
drop_spaces (c ∷ cs) = let rest = drop_spaces cs in if is_space (code c) then rest else c ∷ cs

-- `s.trim()`
unfoldable pub trim : String → String
unfolding drop_spaces is_space
trim s = of_chars (reverse (drop_spaces (reverse (drop_spaces (chars s)))))

unfoldable pub begins : List Char → List Char → Bool
begins cs [] = true
begins [] (d ∷ ds) = false
begins (c ∷ cs) (d ∷ ds) = eqb (code c) (code d) && begins cs ds

-- `s.startsWith(t)`
unfoldable pub starts_with : String → String → Bool
unfolding begins
starts_with s t = begins (chars s) (chars t)

unfoldable pub occurs : List Char → List Char → Bool
unfolding begins
occurs [] ds = begins [] ds
occurs (c ∷ cs) ds = begins (c ∷ cs) ds || occurs cs ds

-- `s.includes(t)`
unfoldable pub contains : String → String → Bool
unfolding occurs
contains s t = occurs (chars s) (chars t)

-- `s.split(sep)` at one separator: the part before the first, and the parts after it.
unfoldable pub split_from : ℕ → List Char → String → List String
split_from sep cur [] = of_chars (reverse cur) ∷ []
split_from sep cur (c ∷ s) =
    let empty : List Char = [] in
    let closed : List String = of_chars (reverse cur) ∷ split_from sep empty s in
    let more : List Char = c ∷ cur in
    let longer = split_from sep more s in if eqb (code c) sep then closed else longer

unfoldable pub split : ℕ → String → List String
unfolding split_from
split sep s = split_from sep [] s
