-- ===== src/Session/Redirects.antt =====
-- Where the login page sends a visitor.
use Prim.Native.Char.{Char, code}
use sigil_manager.Prelude.{
  ℕ, String, Bool, true, false, none, some, List, [], ◌∷◌, ◌≡◌, ◌≢◌, inl, inr, refl, arith, nat_eq,
  Json, Fields, field, lookup, Bool-cases, ◌&&◌, not, chars, starts_with, contains, begins, occurs,
  All,
}
use sigil_manager.Session.{valid_redirect, validate_login_search, login_target}

-- `/` and `\`, by their codes.
abbrev slash : ℕ
slash = 0x2f

abbrev backslash : ℕ
backslash = 0x5c

abbrev pub codes : List Char → List ℕ
codes [] = []
codes (c ∷ cs) = code c ∷ codes cs

-- A path of this site: one slash and no second one at the front, and no backslash anywhere.
abbrev pub IsSitePath : List ℕ → Type 0
IsSitePath [] = ⊥
IsSitePath (a ∷ []) = a ≡ slash
IsSitePath (a ∷ b ∷ ns) = (a ≡ slash) × (b ≢ slash) × All (λ n. n ≢ backslash) (b ∷ ns)

no_backslash :
    (cs : List Char) → occurs cs (chars "\\") ≡ false → All (λ n. n ≢ backslash) (codes cs)
unfolding occurs begins
no_backslash [] h = tt
no_backslash (c ∷ cs) h = (ground arith, no_backslash cs (ground arith))

occurs_none :
    (cs : List Char) → All (λ n. n ≢ backslash) (codes cs) → occurs cs (chars "\\") ≡ false
unfolding occurs begins
occurs_none [] h = refl
occurs_none (c ∷ cs) h = ground (arith, h.0, occurs_none cs h.1)

-- The test of `validateSearch` on the characters of a redirect.
abbrev is_local : List Char → Bool
is_local cs = begins cs (chars "/") && not (begins cs (chars "//")) && not (occurs cs (chars "\\"))

is_local-IsSitePath : (cs : List Char) → is_local cs ≡ true → IsSitePath (codes cs)
unfolding occurs begins
is_local-IsSitePath [] h = cc
is_local-IsSitePath (a ∷ []) h = ground arith
is_local-IsSitePath (a ∷ b ∷ cs) h =
    (ground arith, ground arith, no_backslash (b ∷ cs) (ground arith))

IsSitePath-is_local : (cs : List Char) → IsSitePath (codes cs) → is_local cs ≡ true
unfolding occurs begins
IsSitePath-is_local [] h = absurd h
IsSitePath-is_local (a ∷ []) h = ground arith
IsSitePath-is_local (a ∷ b ∷ cs) h = ground (arith, h, occurs_none (b ∷ cs) h.2)

alerts-IsSitePath : IsSitePath (codes (chars "/alerts"))
unfolding occurs begins
alerts-IsSitePath = is_local-IsSitePath (chars "/alerts") refl

target-IsSitePath :
    (v : Json)
    → IsSitePath (codes (chars (elim (valid_redirect v) [ none ↦ "/alerts" | some r ↦ r ])))
unfolding valid_redirect starts_with contains
target-IsSitePath (Json.string r) = elim (Bool-cases (is_local (chars r))) [
  | inl local ↦ rw local (is_local-IsSitePath (chars r) local)
  | inr foreign ↦ rw foreign alerts-IsSitePath
]
target-IsSitePath Json.undefined = alerts-IsSitePath
target-IsSitePath Json.null = alerts-IsSitePath
target-IsSitePath (Json.boolean b) = alerts-IsSitePath
target-IsSitePath (Json.number n) = alerts-IsSitePath
target-IsSitePath (Json.array vs) = alerts-IsSitePath
target-IsSitePath (Json.object fs) = alerts-IsSitePath

-- Whatever the search of the login page's URL holds, the visitor is sent to a path of this site:
-- one slash at the front, no second one, and no backslash.
pub login_target-IsSitePath :
    (raw : Fields) → IsSitePath (codes (chars (login_target (validate_login_search raw))))
unfolding login_target validate_login_search
login_target-IsSitePath raw = target-IsSitePath (lookup "redirect" raw)

-- A path of this site in the search of the login page's URL is where the visitor is sent after
-- signing in.
pub login_target-redirect :
    (href : String) (rest : Fields)
    → IsSitePath (codes (chars href))
    → login_target (validate_login_search (field "redirect" (Json.string href) rest)) ≡ href
unfolding login_target validate_login_search valid_redirect starts_with contains
login_target-redirect href rest h = rw (IsSitePath-is_local (chars href) h) refl
