-- ===== src/Alerts/Keyboard/Moves.antt =====
-- Where the keys j and k take the cursor.
use sigil_manager.Prelude.{
  ℕ, zero, suc, ◌+◌, ◌<◌, String, true, Option, none, some, List, [], ◌∷◌, ◌≡◌, refl, arith,
  string_eq, eq_iff, eq_refl, length, get_elem?, ℤ, pos, negsuc, map, Distinct, includes,
}
use sigil_manager.Api.Fleet.{EventWithTriage}
use sigil_manager.Alerts.Search.{AlertsSearch, set_search}
use sigil_manager.Alerts.Keyboard.{index_of, cursor_index, next_index, move_cursor}

abbrev pub event_ids : List EventWithTriage → List String
event_ids = map (λ ev. ev.event_id)

get_elem-exists {ℓ} :
    {A : Type ℓ} (xs : List A) (i : ℕ) → i < length xs → (x : A) × (get_elem? xs i ≡ some x)
get_elem-exists [] i h = elim h [ ]
get_elem-exists (x ∷ xs) zero h = (x, refl)
get_elem-exists (x ∷ xs) (suc i) h = get_elem-exists xs i (omega arith)

pub includes-get_elem :
    (rows : List EventWithTriage) (i : ℕ) (row : EventWithTriage)
    → get_elem? rows i ≡ some row
    → includes (event_ids rows) row.event_id ≡ true
includes-get_elem [] i row h = cc
includes-get_elem (ev ∷ rows) zero row h = ground (arith, eq_refl row.event_id)
includes-get_elem (ev ∷ rows) (suc i) row h = ground (arith, includes-get_elem rows i row h)

-- Where no id stands twice, a row is found at its own place.
index_of-get_elem :
    (rows : List EventWithTriage) (i : ℕ) (row : EventWithTriage)
    → Distinct (event_ids rows)
    → get_elem? rows i ≡ some row
    → index_of row.event_id rows ≡ some i
unfolding index_of
index_of-get_elem [] i row d h = cc
index_of-get_elem (ev ∷ rows) zero row d h = ground (arith, eq_refl row.event_id)
index_of-get_elem (ev ∷ rows) (suc i) row (fresh, d) h = ground (
  arith,
  index_of-get_elem rows i row d h,
  includes-get_elem rows i row h,
  eq_iff ev.event_id row.event_id,
)

next_index-lt : (n : ℕ) (at : Option ℕ) (delta : ℤ) → 0 < n → next_index n at delta < n
unfolding next_index
next_index-lt n none (pos zero) h = omega arith
next_index-lt n none (pos (suc k)) h = omega arith
next_index-lt n none (negsuc k) h = omega arith
next_index-lt n (some i) delta h = omega arith

-- The row that a move selects.
pub alert-move_cursor :
    (rows : List EventWithTriage) (delta : ℤ) (s : AlertsSearch)
    → 0 < length rows
    → (row : EventWithTriage) × (get_elem? rows
          (next_index (length rows) (cursor_index rows s.alert) delta)
        ≡ some row)
      × ((move_cursor rows delta s).alert ≡ some row.event_id)
unfolding move_cursor set_search
alert-move_cursor [] delta s h = elim h [ ]
alert-move_cursor (ev ∷ rows) delta s h =
    let at = cursor_index (ev ∷ rows) s.alert in
    let (row, there) =
      get_elem-exists (ev ∷ rows) (next_index (suc (length rows)) at delta)
        (next_index-lt (suc (length rows)) at delta h) in
    (row, there, rw (there, move_cursor))

-- With at least one row and no event id twice, a move puts the cursor on a row: the first or the
-- last one where it was on none, and else so many rows further, held at both ends of the list.
pub cursor_index-move_cursor :
    (rows : List EventWithTriage) (delta : ℤ) (s : AlertsSearch)
    → 0 < length rows
    → Distinct (event_ids rows)
    → let next = next_index (length rows) (cursor_index rows s.alert) delta in
      (cursor_index rows (move_cursor rows delta s).alert ≡ some next) × (next < length rows)
cursor_index-move_cursor rows delta s h d =
    let (row, there, shown) = alert-move_cursor rows delta s h in
    (
      rw shown (unfold cursor_index in index_of-get_elem rows _ row d there),
      next_index-lt (length rows) (cursor_index rows s.alert) delta h,
    )

-- In a list without an event id twice, with the cursor above the last row, j and then k come back
-- to the row where the cursor was.
pub cursor_index-down_up :
    (rows : List EventWithTriage) (s : AlertsSearch) (i : ℕ)
    → Distinct (event_ids rows)
    → cursor_index rows s.alert ≡ some i
    → i + 1 < length rows
    → cursor_index rows (move_cursor rows (negsuc 0) (move_cursor rows (pos 1) s)).alert ≡ some i
unfolding next_index
cursor_index-down_up rows s i d at h =
    let below = move_cursor rows (pos 1) s in
    let down = (cursor_index-move_cursor rows (pos 1) s (omega arith) d).0 in
    let up = (cursor_index-move_cursor rows (negsuc 0) below (omega arith) d).0 in
    ground (arith, down, up)
