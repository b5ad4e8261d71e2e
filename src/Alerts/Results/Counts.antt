-- ===== src/Alerts/Results/Counts.antt =====
-- How many rows the table has, and where the cursor stands.
use sigil_manager.Prelude.{
  ℕ, zero, suc, ◌<◌, String, Option, none, some, List, [], ◌∷◌, ◌≡◌, arith, string_eq, length,
}
use sigil_manager.Prelude.Sort.{length-sort}
use sigil_manager.Api.Fleet.{EventWithTriage}
use sigil_manager.Api.Triage.{status_eq}
use sigil_manager.Alerts.Sorting.{SortMode, sort_events}
use sigil_manager.Alerts.Keyboard.{index_of, cursor_index}

index_of-lt :
    (id : String) (rows : List EventWithTriage) (i : ℕ)
    → index_of id rows ≡ some i
    → i < length rows
unfolding index_of
index_of-lt id [] i h = ground arith
index_of-lt id (ev ∷ rows) zero h = omega arith
index_of-lt id (ev ∷ rows) (suc i) h = ground (arith, index_of-lt id rows i)

pub cursor_index-lt :
    (rows : List EventWithTriage) (selected : Option String) (i : ℕ)
    → cursor_index rows selected ≡ some i
    → i < length rows
unfolding cursor_index
cursor_index-lt rows none i h = ground arith
cursor_index-lt rows (some id) i h = index_of-lt id rows i h

pub length-sort_events :
    (rows : List EventWithTriage) (mode : SortMode) → length (sort_events rows mode) ≡ length rows
unfolding sort_events
length-sort_events rows mode = length-sort _ rows
