-- ===== src/Triage/Writes.antt =====
-- What the slide-over writes, and in which order.
use sigil_manager.Prelude.{
  Option, String, Bool, true, false, none, some, List, [], ◌∷◌, ◌≡◌, ◌≢◌, ◌⊎◌, inl, inr, refl,
  arith, if◌then◌else◌, ◌==◌, string_eq, Bool-cases, truthy, trim, ◌||◌, All, any, eq_iff,
}
use sigil_manager.Api.Triage.{open_status, UpsertPayload, NotePayload}
use sigil_manager.Api.Fleet.{EventWithTriage, Evidence}
use sigil_manager.Triage.{Write, upserted, noted, on_submit_note, on_assign, set_status, Submitted}

-- Every note is sent when the row of the alert exists: from the start, or by a write that succeeded.
abbrev pub HasRow : (has_row : Bool) → List Write → Type 0
HasRow row [] = Unit
HasRow row (upserted p ok ∷ ws) = HasRow (row || ok) ws
HasRow row (noted n ok ∷ ws) = (row ≡ true) × HasRow row ws

-- A write that put the note on record.
abbrev pub is_recorded : Write → Bool
is_recorded (upserted p ok) = false
is_recorded (noted n ok) = ok

-- The text that a write sends: no note is empty.
abbrev pub HasText : Write → Type 0
HasText (upserted p ok) = Unit
HasText (noted n ok) = n.body ≢ ""

abbrev note_of : EventWithTriage → String → NotePayload
note_of event draft = record {
  host_id = event.host_id;
  event_id = event.event_id;
  body = trim draft;
}

not_empty : (t : String) → truthy t ≡ true → t ≢ ""
not_empty t h = λ e. ground (arith, eq_iff t "")

module _ (upsert : UpsertPayload (Option Evidence) → Bool) (append : NotePayload → Bool) where
  -- The three facts of a submitted note.
  abbrev Holds : (has_row : Bool) → (draft : String) → Submitted → Type 0
  Holds has_row draft sent =
      HasRow has_row sent.writes
      × All HasText sent.writes
      × (sent.draft ≡ (if any is_recorded sent.writes then "" else draft))

  written_note :
      (event : EventWithTriage) (has_row : Bool) (draft : String)
      → truthy (trim draft) ≡ true
      → Holds has_row draft (on_submit_note upsert append event has_row draft)
  unfolding on_submit_note
  written_note event true draft written = elim (Bool-cases (append (note_of event draft))) [
    | inl kept ↦ rw (written, kept) ((refl, tt), (not_empty (trim draft) written, tt), refl)
    | inr lost ↦ rw (written, lost) ((refl, tt), (not_empty (trim draft) written, tt), refl)
  ]
  written_note event false draft written =
      elim (Bool-cases (upsert (set_status event false open_status))) [
        | inr refused ↦ rw (written, refused) (tt, (tt, tt), refl)
        | inl opened ↦ elim (Bool-cases (append (note_of event draft))) [
          | inl kept ↦
              rw (written, opened, kept)
                ((refl, tt), (tt, (not_empty (trim draft) written, tt)), refl)
          | inr lost ↦
              rw (written, opened, lost)
                ((refl, tt), (tt, (not_empty (trim draft) written, tt)), refl)
        ]
      ]

  -- Whatever the server answers, a note is sent only when the alert's row exists, no note is empty,
  -- and the draft is cleared exactly when the note was recorded.
  pub on_submit_note_lem :
      (event : EventWithTriage) (has_row : Bool) (draft : String)
      → let sent = on_submit_note upsert append event has_row draft in
        HasRow has_row sent.writes
        × All HasText sent.writes
        × (sent.draft ≡ (if any is_recorded sent.writes then "" else draft))
  unfolding on_submit_note
  on_submit_note_lem event has_row draft = elim (Bool-cases (truthy (trim draft))) [
    | inl written ↦ written_note event has_row draft written
    | inr empty ↦ rw empty (tt, tt, refl)
  ]

-- The assignee form either names someone or clears the field, never both and never neither; a name
-- that is sent is the draft without its outer space, and is not empty.
pub on_assign-either :
    (event : EventWithTriage) (has_row : Bool) (draft : String)
    → let sent = on_assign event has_row draft in
      ((sent.assignee ≡ none) × (sent.clear_assignee ≡ some true) × (trim draft ≡ ""))
      ⊎ ((sent.assignee ≡ some (trim draft))
          × (sent.clear_assignee ≡ some false)
          × (trim draft ≢ ""))
unfolding on_assign
on_assign-either event has_row draft = elim (Bool-cases (trim draft == "")) [
  | inl empty ↦ inl (rw empty refl, rw empty refl, (eq_iff (trim draft) "").0 empty)
  | inr named ↦ inr (rw named refl, rw named refl, λ e. ground (arith, eq_iff (trim draft) ""))
]
