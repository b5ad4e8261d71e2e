-- ===== src/Alerts/Page/Marks.antt =====
-- The mark of the selected row, and where a key moves it.
use sigil_manager.Prelude.{
  ℕ, zero, suc, ◌<◌, String, Bool, true, false, Option, none, some, List, [], ◌∷◌, ◌≡◌, refl, ap,
  arith, length, map, replicate, Distinct, includes, ◌==◌, string_eq, eq_iff, pos, negsuc,
  Bool-cases, inl, inr, ltb, ◌⊎◌, Option-cases,
}
use sigil_manager.Api.Fleet.{EventWithTriage}
use sigil_manager.Alerts.Results.Counts.{cursor_index-lt}
use sigil_manager.Alerts.Keyboard.{index_of, cursor_index, next_index}
use sigil_manager.Alerts.Keyboard.Moves.{event_ids}

-- One mark, at this place of so many.
abbrev pub mark : (n i : ℕ) → List Bool
mark zero i = []
mark (suc n) zero = true ∷ replicate n false
mark (suc n) (suc i) = false ∷ mark n i

-- No mark, or one.
abbrev pub marks : ℕ → Option ℕ → List Bool
marks n none = replicate n false
marks n (some i) = mark n i

-- The row below, held at the end; from none, the first one.
abbrev pub StepsDown : (n : ℕ) (at : Option ℕ) (next : ℕ) → Type 0
StepsDown n none next = next ≡ 0
StepsDown n (some i) next = ((suc i < n) × (next ≡ suc i)) ⊎ ((suc i ≡ n) × (next ≡ i))

-- The row above, held at the start; from none, the last one.
abbrev pub StepsUp : (n : ℕ) (at : Option ℕ) (next : ℕ) → Type 0
StepsUp n none next = suc next ≡ n
StepsUp n (some zero) next = next ≡ 0
StepsUp n (some (suc i)) next = next ≡ i

-- A cursor within so many rows.
abbrev pub IsWithin : ℕ → Option ℕ → Type 0
IsWithin n none = Unit
IsWithin n (some i) = i < n

pub next_index-StepsDown :
    (n : ℕ) (at : Option ℕ) → IsWithin n at → StepsDown n at (next_index n at (pos 1))
unfolding next_index
next_index-StepsDown n none h = refl
next_index-StepsDown n (some i) h = elim (Bool-cases (ltb (suc i) n)) [
  | inl more ↦ inl (ground arith, ground arith)
  | inr last ↦ inr (ground arith, ground arith)
]

pub next_index-StepsUp :
    (n : ℕ) (at : Option ℕ) → 0 < n → IsWithin n at → StepsUp n at (next_index n at (negsuc 0))
unfolding next_index
next_index-StepsUp n none some_row h = omega arith
next_index-StepsUp n (some zero) some_row h = omega arith
next_index-StepsUp n (some (suc i)) some_row h = omega arith

unmarked :
    (rows : List EventWithTriage) (id : String)
    → includes (event_ids rows) id ≡ false
    → map (λ ev. ev.event_id == id) rows ≡ replicate (length rows) false
unmarked [] id h = refl
unmarked (ev ∷ rows) id h = ground (arith, unmarked rows id)

marked :
    (rows : List EventWithTriage) (id : String) (i : ℕ)
    → Distinct (event_ids rows)
    → index_of id rows ≡ some i
    → map (λ ev. ev.event_id == id) rows ≡ mark (length rows) i
unfolding index_of
marked [] id i d h = cc
marked (ev ∷ rows) id zero (fresh, d) h = elim (Bool-cases (ev.event_id == id)) [
  | inl same ↦
      let gone : includes (event_ids rows) id ≡ false =
        rw (← (eq_iff ev.event_id id).0 same) fresh in
      rw (same, unmarked rows id gone) refl
  | inr other ↦ ground arith
]
marked (ev ∷ rows) id (suc i) (fresh, d) h = ground (arith, marked rows id i d)

-- The row that carries the id of the page's alert.
abbrev pub drawn_selected : Option String → EventWithTriage → Bool
drawn_selected none ev = false
drawn_selected (some id) ev = ev.event_id == id

not_drawn :
    (rows : List EventWithTriage) (id : String)
    → index_of id rows ≡ none
    → map (λ ev. ev.event_id == id) rows ≡ replicate (length rows) false
unfolding index_of
not_drawn [] id h = refl
not_drawn (ev ∷ rows) id h = elim (Option-cases (index_of id rows)) [
  | inl absent ↦ ground (arith, not_drawn rows id absent)
  | inr (i, found) ↦ absurd (ground arith)
]

none_drawn :
    (rows : List EventWithTriage) → map (drawn_selected none) rows ≡ replicate (length rows) false
none_drawn [] = refl
none_drawn (ev ∷ rows) = ap (λ flags. false ∷ flags) (none_drawn rows)

-- The table marks the row of the cursor.
pub cursor-marks :
    (rows : List EventWithTriage) (alert : Option String)
    → Distinct (event_ids rows)
    → map (drawn_selected alert) rows ≡ marks (length rows) (cursor_index rows alert)
unfolding cursor_index
cursor-marks rows none d = none_drawn rows
cursor-marks rows (some id) d = elim (Option-cases (index_of id rows)) [
  | inl absent ↦ rw absent (not_drawn rows id absent)
  | inr (i, found) ↦ rw found (marked rows id i d found)
]

pub within :
    (rows : List EventWithTriage) (alert : Option String)
    → IsWithin (length rows) (cursor_index rows alert)
within rows alert = elim (Option-cases (cursor_index rows alert)) [
  | inl absent ↦ rw absent tt
  | inr (i, found) ↦ rw found (cursor_index-lt rows alert i found)
]
