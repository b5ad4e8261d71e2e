-- ===== src/Prelude/Values.antt =====
-- Dynamic values of the language: what `JSON.parse` and the router's search parser return.
use Prim.Native.Nat.{ℕ, zero, suc}
use Prim.Native.String.{String}
use mathlib.Core.Bool.{Bool, true, false}
use mathlib.Core.List.{List, [], ◌∷◌}
use sigil_manager.Prelude.Tests.{if◌then◌else◌}
use sigil_manager.Prelude.Classes.{string_eq, ◌==◌}
use sigil_manager.Prelude.Text.{join}

-- A number of the source is kept by its canonical decimal text, `String(n)`.
pub record Number : Type 0 where
  pub decimal : String

-- `negsuc n` is -(n + 1).
pub data ℤ : Type 0 where
  pos : ℕ → ℤ
  negsuc : ℕ → ℤ

-- `n > 0`
abbrev pub is_positive : ℤ → Bool
is_positive (pos zero) = false
is_positive (pos (suc n)) = true
is_positive (negsuc n) = false

mutual
  pub data Json : Type 0 where
    undefined : Json
    null : Json
    boolean : Bool → Json
    number : Number → Json
    string : String → Json
    array : Items → Json
    object : Fields → Json

  pub data Items : Type 0 where
    nil : Items
    cons : Json → Items → Items

  pub data Fields : Type 0 where
    end : Fields
    field : String → Json → Fields → Fields

abbrev pub items : Items → List Json
items nil = []
items (cons v vs) = v ∷ items vs

abbrev pub lookup : String → Fields → Json
lookup k end = undefined
lookup k (field j v fs) = let rest = lookup k fs in if j == k then v else rest

-- `v?.k`. A text, a number or an array has no property of the names that the program reads.
abbrev pub member : String → Json → Json
member k (object fs) = lookup k fs
member k _ = undefined

-- `v ?? d`
abbrev pub or_else : Json → Json → Json
or_else undefined d = d
or_else null d = d
or_else v d = v

-- `String(v)`, where an array joins the texts of its elements, the empty one of a missing element.
unfoldable mutual
  pub to_string : Json → String
  to_string Json.undefined = "undefined"
  to_string Json.null = "null"
  to_string (Json.boolean true) = "true"
  to_string (Json.boolean false) = "false"
  to_string (Json.number n) = n.decimal
  to_string (Json.string s) = s
  to_string (Json.array vs) = join "," (element_strings vs)
  to_string (Json.object fs) = "[object Object]"

  element_strings : Items → List String
  element_strings nil = []
  element_strings (cons Json.undefined vs) = "" ∷ element_strings vs
  element_strings (cons Json.null vs) = "" ∷ element_strings vs
  element_strings (cons v vs) = to_string v ∷ element_strings vs
