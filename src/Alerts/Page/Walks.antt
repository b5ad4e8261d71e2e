-- ===== src/Alerts/Page/Walks.antt =====
-- How far the keys go: every row can be reached, and everything can be closed.
use sigil_manager.Prelude.{
  ℕ, zero, suc, ◌+◌, ◌<◌, String, false, Option, none, some, ◌≡◌, ap, ◌∙◌, arith, length, pos,
  Distinct, string_eq, repeat, truthy?,
}
use sigil_manager.Alerts.Search.{set_search}
use sigil_manager.Alerts.Keyboard.{Page, cursor_index, next_index, on_escape}
use sigil_manager.Alerts.Keyboard.Moves.{event_ids, cursor_index-move_cursor}
use sigil_manager.Alerts.Page.{Around, on_key, binding_of}
use sigil_manager.Alerts.Page.Frame.{press_key}

module _ (iso : ℕ → String) (parse : String → Option ℕ) (now : ℕ) (a : Around)
    (unique : Distinct (event_ids a.rows)) where
  abbrev cursor : Page → Option ℕ
  cursor p = cursor_index a.rows p.search.alert

  one_down :
      (p : Page)
      → 0 < length a.rows
      → cursor (press_key iso parse now "j" a p)
        ≡ some (next_index (length a.rows) (cursor p) (pos 1))
  unfolding on_key binding_of
  one_down p h = (cursor_index-move_cursor a.rows (pos 1) p.search h unique).0

  -- From a row of the list, further presses stop at the last one.
  downward :
      (n i : ℕ) (p : Page)
      → i + n < length a.rows
      → cursor p ≡ some i
      → cursor (repeat n (press_key iso parse now "j" a) p) ≡ some (i + n)
  unfolding next_index
  downward zero i p h at = ground (arith, at)
  downward (suc n) i p h at =
      downward n (i + 1) (press_key iso parse now "j" a p) (omega arith)
        (ground (arith, one_down p))
      ∙ ap some (omega arith)

  escaped_twice :
      (p : Page)
      → ((on_escape (on_escape p)).cheatsheet_open ≡ false)
        × (truthy? (on_escape (on_escape p)).search.alert ≡ false)
  unfolding on_escape set_search
  escaped_twice p = ground arith

  -- In a list without an event id twice and with no row selected, one press of the key j more than
  -- its index reaches any row; and then two presses of Escape close the cheatsheet and the
  -- slide-over.
  pub press_key-reaches :
      (p : Page) (i : ℕ)
      → i < length a.rows
      → cursor p ≡ none
      → let there = repeat (suc i) (press_key iso parse now "j" a) p in
        (cursor there ≡ some i)
        × (let closed = repeat 2 (press_key iso parse now "Escape" a) there in
            (closed.cheatsheet_open ≡ false) × (truthy? closed.search.alert ≡ false))
  unfolding next_index on_key binding_of
  press_key-reaches p i h none_yet =
      let first : cursor (press_key iso parse now "j" a p) ≡ some 0 =
        ground (arith, one_down p, none_yet) in
      (
        downward i 0 (press_key iso parse now "j" a p) (omega arith) first ∙ ap some (omega arith),
        escaped_twice (repeat (suc i) (press_key iso parse now "j" a) p),
      )
