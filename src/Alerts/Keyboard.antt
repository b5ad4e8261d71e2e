-- ===== src/Alerts/Keyboard.antt =====
-- The keyboard of the alerts page: the moves of the cursor in web/src/routes/_authed/alerts.tsx.
pub mod Moves
use sigil_manager.Prelude.{
  ℕ, zero, suc, ◌+◌, ◌-◌, String, Bool, true, false, Option, none, some, List, [], ◌∷◌,
  if◌then◌else◌, ◌==◌, string_eq, leb, ltb, length, get_elem?, min, ℤ, pos, negsuc, is_positive,
}
use sigil_manager.Api.Fleet.{EventWithTriage, Event}
use sigil_manager.Alerts.Search.{AlertsSearch, on_select, close_slide_over}

-- `findIndex`, with `none` for -1.
unfoldable pub index_of : String → List EventWithTriage → Option ℕ
index_of id [] = none
index_of id (ev ∷ rows) =
    let rest = (elim (index_of id rows) as (λ _. Option ℕ) [
      | none ↦ none
      | some i ↦ some (suc i)
    ]) in
    if ev.event_id == id then some 0 else rest

unfoldable pub cursor_index : List EventWithTriage → Option String → Option ℕ
unfolding index_of
cursor_index rows none = none
cursor_index rows (some selected) = index_of selected rows

-- `Math.max(0, i + delta)`
abbrev pub moved : ℕ → ℤ → ℕ
moved i (pos k) = i + k
moved i (negsuc k) = i - suc k

-- `next` of `moveCursor`, where there are `n` rows.
unfoldable pub next_index : ℕ → Option ℕ → ℤ → ℕ
next_index n none delta = if is_positive delta then 0 else n - 1
next_index n (some i) delta = min (moved i delta) (n - 1)

-- `moveCursor`: with no row the search stays as it is.
unfoldable pub move_cursor : List EventWithTriage → ℤ → AlertsSearch → AlertsSearch
unfolding next_index cursor_index
move_cursor [] delta s = s
move_cursor (ev ∷ rows) delta s =
    let all = ev ∷ rows in
    elim (get_elem? all (next_index (length all) (cursor_index all s.alert) delta)) [
      | none ↦ s
      | some row ↦ on_select s row.event_id
    ]

-- The Enter key: with no cursor the first row is opened.
unfoldable pub on_enter : List EventWithTriage → AlertsSearch → AlertsSearch
unfolding cursor_index
on_enter [] s = s
on_enter (ev ∷ rows) s = elim (cursor_index (ev ∷ rows) s.alert) [
  | none ↦ on_select s ev.event_id
  | some i ↦ s
]

-- The page by the URL and its own state. `path` is the route that is shown.
pub record Page : Type 0 where
  pub path : String
  pub search : AlertsSearch
  pub cheatsheet_open : Bool

-- The Escape key closes the cheatsheet first, and then the open alert. An empty id opens nothing.
unfoldable pub on_escape : Page → Page
on_escape p =
    if p.cheatsheet_open then record p { cheatsheet_open = false } else (elim p.search.alert [
      | none ↦ p
      | some id ↦ if id == "" then p else record p { search = close_slide_over p.search }
    ])
