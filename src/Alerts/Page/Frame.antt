-- ===== src/Alerts/Page/Frame.antt =====
-- What the keyboard leaves alone: the filter and the order of the alerts page.
use sigil_manager.Prelude.{
  ℕ, String, Bool, true, false, Option, none, some, List, [], ◌∷◌, ◌≡◌, refl, ap, ◌∙◌, ◌==◌,
  string_eq, eq_iff, Bool-cases, inl, inr, if◌then◌else◌,
}
use sigil_manager.Alerts.Search.{AlertsSearch, filter_of, sort_of}
use sigil_manager.Alerts.Filter.{AlertFilter}
use sigil_manager.Api.Fleet.{high}
use sigil_manager.Alerts.Sorting.{SortMode, severity_desc}
use sigil_manager.Alerts.Keyboard.{Page}
use sigil_manager.Alerts.Page.{Around, Handled, navigate, on_key}
use sigil_manager.Alerts.Page.Going.{destination}
use sigil_manager.Alerts.Page.Triggers.{IsPlainPage}

-- What the list shows, and in which order.
abbrev pub view_of : AlertsSearch → AlertFilter × SortMode
view_of s = (filter_of s, sort_of s)

abbrev pub page_after : Page → Option Handled → Page
page_after p none = p
page_after p (some h) = h.page

-- The list as it is without a search, by the labels of the filter row: high severity and above, any
-- status, any time, no text, and the most severe event first.
abbrev pub first_view : AlertFilter × SortMode
first_view =
    (record { min_bucket = high; triage_statuses = []; since = none; query = "" }, severity_desc)

-- The route after presses, and whether one of them went anywhere.
abbrev route_by : Option String → String → String
route_by none rest = rest
route_by (some to) rest = if to == "/alerts" then rest else to

abbrev pub route_after : List (String × Around) → String
route_after [] = "/alerts"
route_after ((key, a) ∷ presses) = route_by (destination key) (route_after presses)

abbrev gone_by : Option String → Bool → Bool
gone_by none rest = rest
gone_by (some to) rest = true

abbrev pub has_gone : List (String × Around) → Bool
has_gone [] = false
has_gone ((key, a) ∷ presses) = gone_by (destination key) (has_gone presses)

same_if : (b : Bool) → (if b then first_view else first_view) ≡ first_view
same_if true = refl
same_if false = refl

navigate-path : (to : String) (p : Page) → (navigate to p).page.path ≡ to
unfolding navigate
navigate-path to p = refl

navigate-view : (to : String) (p : Page) → view_of (navigate to p).page.search ≡ first_view
unfolding navigate filter_of sort_of
navigate-view to p = refl

-- A press that is not of the key i, on a page where only the actions have their labels.
abbrev pub IsHarmless : String × Around → Type 0
IsHarmless (key, a) = (("i" == key) ≡ false) × IsPlainPage "Acknowledge" a × IsPlainPage "Resolve" a

-- The same list on the same route.
abbrev IsKept : Page → Page → Type 0
IsKept p p' = (view_of p'.search ≡ view_of p.search) × (p'.path ≡ p.path)

module _ (iso : ℕ → String) (parse : String → Option ℕ) (now : ℕ) where
  -- A press of a binding while the page is shown; any other key does nothing.
  abbrev pub press_key : String → Around → Page → Page
  press_key key a p = page_after p (on_key iso parse now key a p)

  -- A press at any time: the bindings go with the page.
  abbrev pub press_anywhere : String → Around → Page → Page
  press_anywhere key a p = if p.path == "/alerts" then press_key key a p else p

  -- Presses, each with what stands around it then.
  abbrev pub press_keys : List (String × Around) → Page → Page
  press_keys [] p = p
  press_keys ((key, a) ∷ rest) p = press_keys rest (press_anywhere key a p)

  -- Once the page has been left, keys do nothing to it.
  press_keys-away :
      (presses : List (String × Around)) (p : Page)
      → (p.path == "/alerts") ≡ false
      → press_keys presses p ≡ p
  press_keys-away [] p away = refl
  press_keys-away ((key, a) ∷ presses) p away = rw away (press_keys-away presses p away)

  arrived :
      (to : String) (presses : List (String × Around)) (p : Page)
      → ((navigate to p).page.path ≡ "/alerts"
          → let after = press_keys presses (navigate to p).page in
            (after.path ≡ route_after presses)
            × (view_of after.search
                ≡ (if has_gone presses then first_view else view_of (navigate to p).page.search)))
      → let after = press_keys presses (navigate to p).page in
        (after.path ≡ (if to == "/alerts" then route_after presses else to))
        × (view_of after.search ≡ first_view)
  arrived to presses p again = elim (Bool-cases (to == "/alerts")) [
    | inl back ↦
        let here = navigate-path to p ∙ (eq_iff to "/alerts").0 back in
        let (route, list) = again here in
        (
          rw back route,
          list
              ∙ ap (λ v. if has_gone presses then first_view else v) (navigate-view to p)
              ∙ same_if (has_gone presses),
        )
    | inr left ↦
        let away : ((navigate to p).page.path == "/alerts") ≡ false =
          ap (λ r. r == "/alerts") (navigate-path to p) ∙ left in
        let stays = press_keys-away presses (navigate to p).page away in
        (
          rw left (ap (λ r. r.path) stays ∙ navigate-path to p),
          ap (λ r. view_of r.search) stays ∙ navigate-view to p,
        )
  ]
