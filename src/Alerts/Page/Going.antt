-- ===== src/Alerts/Page/Going.antt =====
-- Which keys of the alerts page go to another page, and which only move about on it.
use sigil_manager.Prelude.{
  String, Bool, true, false, Option, none, some, List, [], ◌∷◌, ◌≡◌, refl, ◌==◌, string_eq,
  Bool-cases, ◌⊎◌, inl, inr, All, if◌then◌else◌,
}
use sigil_manager.Alerts.Page.{
  Binding, acknowledge, resolve, investigate, go, bindings, own, binding_of,
}

abbrev pub is_action : Binding → Bool
is_action acknowledge = true
is_action resolve = true
is_action investigate = true
is_action _ = false

abbrev pub is_action? : Option Binding → Bool
is_action? none = false
is_action? (some b) = is_action b

-- What every binding of a key has, and what has no binding, has the key.
own-All :
    (Q : Option Binding → Type 0) (key : String) (rows : List (String × Binding))
    → Q none
    → All (λ row. ((row.0 == key) ≡ false) ⊎ Q (some row.1)) rows
    → Q (own key rows)
own-All Q key [] free h = free
own-All Q key ((k, b) ∷ rows) free (inl other, h) = rw other (own-All Q key rows free h)
own-All Q key ((k, b) ∷ rows) free (inr mine, h) = elim (Bool-cases (k == key)) [
  | inl here ↦ rw here mine
  | inr other ↦ rw other (own-All Q key rows free h)
]

-- Where the two keys of a combination with g go.
unfoldable pub destination : String → Option String
destination key =
    if "g a" == key
    then some "/alerts"
    else if "g f" == key
    then some "/fleet"
    else if "g s" == key
    then some "/settings"
    else none

abbrev pub goes : Option Binding → Option String
goes (some (go to)) = some to
goes _ = none

-- A binding of none of these goes nowhere and presses no button.
abbrev pub IsQuiet : Option Binding → Type 0
IsQuiet o = (is_action? o ≡ false) × (goes o ≡ none)

pub binding_of-IsQuiet :
    (key : String)
    → ("c" == key) ≡ false
    → ("r" == key) ≡ false
    → ("i" == key) ≡ false
    → ("g a" == key) ≡ false
    → ("g f" == key) ≡ false
    → ("g s" == key) ≡ false
    → IsQuiet (binding_of key)
unfolding binding_of
binding_of-IsQuiet key not_c not_r not_i not_alerts not_fleet not_settings =
    own-All IsQuiet key bindings (refl, refl)
      (
        inr (refl, refl),
        (
          inr (refl, refl),
          (
            inr (refl, refl),
            (
              inr (refl, refl),
              (
                inr (refl, refl),
                (
                  inr (refl, refl),
                  (
                    inr (refl, refl),
                    (
                      inr (refl, refl),
                      (
                        inl not_c,
                        (
                          inl not_r,
                          (
                            inl not_i,
                            (
                              inr (refl, refl),
                              (
                                inr (refl, refl),
                                (inl not_alerts, (inl not_fleet, (inl not_settings, tt))),
                              ),
                            ),
                          ),
                        ),
                      ),
                    ),
                  ),
                ),
              ),
            ),
          ),
        ),
      )
