-- ===== src/Alerts/Page/Bindings.antt =====
-- The cheatsheet against the bindings of the page.
use sigil_manager.Prelude.{
  ℕ, String, Bool, true, false, Option, none, some, List, [], ◌∷◌, ◌≡◌, ◌↔◌, refl, ◌∙◌, arith, map,
  if◌then◌else◌, ◌==◌, string_eq, includes, includes-All, flat_map,
}
use sigil_manager.Alerts.Keyboard.{Page}
use sigil_manager.Alerts.Page.{
  Around, Handled, Binding, bindings, own, binding_of, handle, on_key, shortcuts,
}

-- The keys of a row of the cheatsheet, as the browser names them.
abbrev pub keys_of : String → List String
keys_of printed =
    if printed == "j  /  ↓"
    then "j" ∷ "ArrowDown" ∷ []
    else if printed == "k  /  ↑"
    then "k" ∷ "ArrowUp" ∷ []
    else if printed == "Esc"
    then "Escape" ∷ []
    else printed ∷ []

abbrev pub listed_keys : List String
listed_keys = flat_map (λ row. keys_of row.1) shortcuts

abbrev pub is_there {ℓ} : {A : Type ℓ} → Option A → Bool
is_there none = false
is_there (some a) = true

abbrev bound_keys : List String
bound_keys = map (λ row. row.0) bindings

own-includes :
    (key : String) (rows : List (String × Binding))
    → is_there (own key rows) ≡ includes (map (λ row. row.0) rows) key
own-includes key [] = refl
own-includes key ((k, b) ∷ rows) = ground (arith, own-includes key rows)

is_there-handled :
    (o : Option Binding) (f : Binding → Handled)
    → is_there (elim o [ none ↦ none | some b ↦ some (f b) ]) ≡ is_there o
is_there-handled none f = refl
is_there-handled (some b) f = refl

is_there-on_key :
    (iso : ℕ → String) (parse : String → Option ℕ) (now : ℕ) (key : String) (a : Around) (p : Page)
    → is_there (on_key iso parse now key a p) ≡ includes bound_keys key
unfolding on_key binding_of
is_there-on_key iso parse now key a p =
    is_there-handled (own key bindings) (λ b. handle iso parse now b a p)
    ∙ own-includes key bindings

-- On any alerts page a key, or two with the leader, has a handler exactly if the cheatsheet lists
-- it.
pub on_key-listed :
    (iso : ℕ → String) (parse : String → Option ℕ) (now : ℕ) (key : String) (a : Around) (p : Page)
    → (is_there (on_key iso parse now key a p) ≡ true) ↔ (includes listed_keys key ≡ true)
on_key-listed iso parse now key a p = (
  λ h.
      includes-All bound_keys listed_keys key (ground arith)
        (rw (← is_there-on_key iso parse now key a p) h),
  λ h.
      rw (is_there-on_key iso parse now key a p)
        (includes-All listed_keys bound_keys key (ground arith) h),
)
