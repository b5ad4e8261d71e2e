-- ===== src/Alerts/Page/Highlight.antt =====
-- Which row of the table is drawn as selected after a key.
use sigil_manager.Prelude.{
  ℕ, zero, suc, ◌<◌, String, Bool, true, false, Option, none, some, List, [], ◌∷◌, ◌≡◌, refl, sym,
  ap, ◌∙◌, arith, length, map, Distinct, includes, ◌==◌, string_eq, eq_iff, pos, negsuc, ℤ,
  Bool-cases, inl, inr, find, get_elem?, eq_refl,
}
use mathlib.Core.Path.{subst}
use sigil_manager.Prelude.Sort.Names.{includes-sort, Distinct-sort, find-sort}
use sigil_manager.Api.Client.{Failure}
use sigil_manager.Api.Fleet.{EventWithTriage}
use sigil_manager.Fleet.Details.{details_view, slide_over}
use sigil_manager.Alerts.Sorting.{SortMode, sort_events, sort_rows}
use sigil_manager.Alerts.Sorting.Order.{sort_rows-eq-sort_events}
use sigil_manager.Alerts.Results.{RowView, row_view}
use sigil_manager.Alerts.Results.Counts.{length-sort_events}
use sigil_manager.Alerts.Keyboard.{Page, cursor_index, next_index, move_cursor}
use sigil_manager.Alerts.Keyboard.Moves.{
  event_ids, includes-get_elem, alert-move_cursor, cursor_index-move_cursor,
}
use sigil_manager.Alerts.Page.{Around, on_key, binding_of}
use sigil_manager.Alerts.Page.Frame.{press_key}
use sigil_manager.Alerts.Page.Marks.{
  mark, marks, StepsDown, StepsUp, IsWithin, next_index-StepsDown, next_index-StepsUp,
  drawn_selected, cursor-marks, within,
}

find-get_elem :
    (rows : List EventWithTriage) (i : ℕ) (row : EventWithTriage)
    → Distinct (event_ids rows)
    → get_elem? rows i ≡ some row
    → find (λ ev. ev.event_id == row.event_id) rows ≡ some row
find-get_elem [] i row d h = cc
find-get_elem (ev ∷ rows) zero row d h = ground (arith, eq_refl row.event_id)
find-get_elem (ev ∷ rows) (suc i) row (fresh, d) h = ground (
  arith,
  find-get_elem rows i row d h,
  includes-get_elem rows i row h,
  eq_iff ev.event_id row.event_id,
)

Distinct-sort_events :
    (rows : List EventWithTriage) (mode : SortMode)
    → Distinct (event_ids rows)
    → Distinct (event_ids (sort_events rows mode))
unfolding sort_events
Distinct-sort_events rows mode d = Distinct-sort (λ ev. ev.event_id) _ rows d

-- A row of the table is the one that the slide-over finds among the rows of the page.
opened :
    (rows : List EventWithTriage) (mode : SortMode) (i : ℕ) (row : EventWithTriage)
    → Distinct (event_ids rows)
    → includes (event_ids rows) "" ≡ false
    → get_elem? (sort_events rows mode) i ≡ some row
    → (answer : Option EventWithTriage) (error : Option Failure)
    → details_view (some row.event_id) rows none answer error ≡ slide_over row
unfolding details_view sort_events
opened rows mode i row d named h answer error =
    let found : find (λ ev. ev.event_id == row.event_id) rows ≡ some row =
      sym (find-sort (λ ev. ev.event_id) _ rows row.event_id d)
      ∙ find-get_elem (sort_events rows mode) i row (Distinct-sort_events rows mode d) h in
    let listed : includes (event_ids rows) row.event_id ≡ true =
      sym (includes-sort (λ ev. ev.event_id) _ rows row.event_id)
      ∙ includes-get_elem (sort_events rows mode) i row h in
    elim (Bool-cases (row.event_id == "")) [
      | inl empty ↦
          let there : includes (event_ids rows) "" ≡ true =
            rw (← (eq_iff row.event_id "").0 empty) listed in
          absurd (ground (arith, there, named))
      | inr given ↦ rw (found, given) refl
    ]

module _ (upper : String → String) (relative_age : String → String) where
  -- The rows of the table as they are drawn.
  abbrev pub drawn_rows :
      (fresh_ids : List String) → SortMode → List EventWithTriage → Page → List RowView
  drawn_rows fresh_ids mode rows p =
      map (row_view upper relative_age p.search.alert fresh_ids) (sort_events rows mode)

  abbrev pub selection : List RowView → List Bool
  selection = map (λ v. v.selected)

  selection-drawn_rows :
      (fresh_ids : List String) (alert : Option String) (rows : List EventWithTriage)
      → selection (map (row_view upper relative_age alert fresh_ids) rows)
        ≡ map (drawn_selected alert) rows
  unfolding row_view
  selection-drawn_rows fresh_ids none [] = refl
  selection-drawn_rows fresh_ids none (ev ∷ rows) =
      ap (λ flags. false ∷ flags) (selection-drawn_rows fresh_ids none rows)
  selection-drawn_rows fresh_ids (some id) [] = refl
  selection-drawn_rows fresh_ids (some id) (ev ∷ rows) =
      ap (λ flags. (ev.event_id == id) ∷ flags) (selection-drawn_rows fresh_ids (some id) rows)

  -- The page before and after a move: the row that the table drew as selected, if any, and the one
  -- that it draws so afterwards; and that the slide-over shows this one, whatever the server says of
  -- it. `Steps` tells where the move goes.
  abbrev pub HasMoved :
      (Steps : ℕ → Option ℕ → ℕ → Type 0) (fresh_ids : List String) (mode : SortMode)
      (rows : List EventWithTriage) (answer : Option EventWithTriage) (error : Option Failure)
      (before after : Page)
      → Type 0
  HasMoved Steps fresh_ids mode rows answer error before after =
      (at : Option ℕ) × (next : ℕ) × (row : EventWithTriage) × (selection
          (drawn_rows fresh_ids mode rows before)
        ≡ marks (length rows) at)
      × Steps (length rows) at next
      × (get_elem? (sort_events rows mode) next ≡ some row)
      × (selection (drawn_rows fresh_ids mode rows after) ≡ mark (length rows) next)
      × (details_view after.search.alert rows none answer error ≡ slide_over row)

  has_moved :
      (Steps : ℕ → Option ℕ → ℕ → Type 0) (fresh_ids : List String) (mode : SortMode)
      (rows : List EventWithTriage) (answer : Option EventWithTriage) (error : Option Failure)
      (p : Page) (delta : ℤ)
      → ((n : ℕ) (at : Option ℕ) → 0 < n → IsWithin n at → Steps n at (next_index n at delta))
      → 0 < length rows
      → Distinct (event_ids rows)
      → includes (event_ids rows) "" ≡ false
      → HasMoved Steps fresh_ids mode rows answer error p
          (record p { search = move_cursor (sort_events rows mode) delta p.search })
  has_moved Steps fresh_ids mode rows answer error p delta steps h d named =
      let table = sort_events rows mode in
      let moved = move_cursor table delta p.search in
      let lengths : length table ≡ length rows = length-sort_events rows mode in
      let some_row : 0 < length table = rw lengths h in
      let unique = Distinct-sort_events rows mode d in
      let at = cursor_index table p.search.alert in
      let next = next_index (length table) at delta in
      let (row, there, shown) = alert-move_cursor table delta p.search some_row in
      let now : cursor_index table moved.alert ≡ some next =
        (cursor_index-move_cursor table delta p.search some_row unique).0 in
      let drawn = λ (q : Page). selection-drawn_rows fresh_ids q.search.alert table in
      (
        at,
        next,
        row,
        drawn p ∙ cursor-marks table p.search.alert unique ∙ ap (λ n. marks n at) lengths,
        subst (λ n. Steps n at next) lengths
            (steps (length table) at some_row (within table p.search.alert)),
        there,
        drawn (record p { search = moved })
            ∙ cursor-marks table moved.alert unique
            ∙ ap (marks (length table)) now
            ∙ ap (λ n. mark n next) lengths,
        rw shown (opened rows mode _ row d named there answer error),
      )

  -- If the page has a row and no event id twice and no empty one, then after the key j, and after the
  -- key k, the table draws exactly one row as selected, and the slide-over shows the event of this
  -- row: the one below, and the one above, the row that was drawn as selected before, held at both
  -- ends; from none, the first and the last. The keys move in the order of the page, and the table
  -- draws the rows in its own.
  pub press_key-HasMoved :
      (iso : ℕ → String) (parse : String → Option ℕ) (now : ℕ) (fresh_ids : List String)
      (mode : SortMode) (rows : List EventWithTriage) (answer : Option EventWithTriage)
      (error : Option Failure) (a : Around) (p : Page)
      → 0 < length rows
      → Distinct (event_ids rows)
      → includes (event_ids rows) "" ≡ false
      → a.rows ≡ sort_rows rows mode
      → HasMoved StepsDown fresh_ids mode rows answer error p (press_key iso parse now "j" a p)
        × HasMoved StepsUp fresh_ids mode rows answer error p (press_key iso parse now "k" a p)
  unfolding on_key binding_of
  press_key-HasMoved iso parse now fresh_ids mode rows answer error a p h d named ordered =
      let same : a.rows ≡ sort_events rows mode = ordered ∙ sort_rows-eq-sort_events rows mode in
      rw same (
        has_moved StepsDown fresh_ids mode rows answer error p (pos 1)
            (λ n at some_row. next_index-StepsDown n at) h d named,
        has_moved StepsUp fresh_ids mode rows answer error p (negsuc 0) next_index-StepsUp h d
            named,
      )
