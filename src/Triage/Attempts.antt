-- ===== src/Triage/Attempts.antt =====
-- A note that is submitted again and again, each time after the answer to the time before: the note
-- form of web/src/components/AlertsQueue/SlideOver.tsx over an unreliable server.
use sigil_manager.Prelude.{
  String, Bool, true, List, [], ◌∷◌, ◌++◌, ◌≡◌, refl, ap, ◌∙◌, inl, inr, Bool-cases, ◌&&◌, ◌||◌,
  if◌then◌else◌, truthy, trim, any,
}
use sigil_manager.Api.Triage.{NotePayload}
use sigil_manager.Api.Fleet.{EventWithTriage}
use sigil_manager.Triage.{Write, upserted, noted, on_submit_note}

-- One submission: whether the panel knows the row of the alert then, and what the server answers to
-- the write of the row and to that of the note.
pub record Submission : Type 0 where
  pub has_row : Bool
  pub row_accepted : Bool
  pub note_accepted : Bool

-- The draft in the field, and the notes on record.
pub record Desk : Type 0 where
  pub draft : String
  pub recorded : List NotePayload

abbrev pub recorded_in : List Write → List NotePayload
recorded_in [] = []
recorded_in (upserted p ok ∷ ws) = recorded_in ws
recorded_in (noted n ok ∷ ws) = let rest = recorded_in ws in if ok then n ∷ rest else rest

module _ (event : EventWithTriage) where
  unfoldable pub submit_once : Submission → Desk → Desk
  unfolding on_submit_note
  submit_once a d =
      let sent =
        on_submit_note (λ _. a.row_accepted) (λ _. a.note_accepted) event a.has_row d.draft in
      record { draft = sent.draft; recorded = d.recorded ++ recorded_in sent.writes }

  abbrev pub submit_all : List Submission → Desk → Desk
  submit_all [] d = d
  submit_all (a ∷ attempts) d = submit_all attempts (submit_once a d)

  -- An attempt that gets as far as the note, and the note is accepted.
  abbrev pub comes_through : Submission → Bool
  comes_through a = (a.has_row || a.row_accepted) && a.note_accepted

  abbrev pub note_for : String → NotePayload
  note_for draft = record { host_id = event.host_id; event_id = event.event_id; body = trim draft }

  abbrev done : String → Desk
  done draft = record { draft = ""; recorded = note_for draft ∷ [] }

  abbrev waiting : String → Desk
  waiting draft = record { draft = draft; recorded = [] }

  once_waiting :
      (a : Submission) (draft : String)
      → truthy (trim draft) ≡ true
      → submit_once a (waiting draft) ≡ (if comes_through a then done draft else waiting draft)
  unfolding submit_once
  once_waiting a draft written = elim (Bool-cases a.has_row) [
    | inl known ↦ elim (Bool-cases a.note_accepted) [
      | inl kept ↦ rw (written, known, kept) refl
      | inr lost ↦ rw (written, known, lost) refl
    ]
    | inr unknown ↦ elim (Bool-cases a.row_accepted) [
      | inr refused ↦ rw (written, unknown, refused) refl
      | inl opened ↦ elim (Bool-cases a.note_accepted) [
        | inl kept ↦ rw (written, unknown, opened, kept) refl
        | inr lost ↦ rw (written, unknown, opened, lost) refl
      ]
    ]
  ]

  once_done : (a : Submission) (draft : String) → submit_once a (done draft) ≡ done draft
  unfolding submit_once trim
  once_done a draft = refl

  all_done :
      (attempts : List Submission) (draft : String) → submit_all attempts (done draft) ≡ done draft
  all_done [] draft = refl
  all_done (a ∷ attempts) draft =
      ap (submit_all attempts) (once_done a draft) ∙ all_done attempts draft

  -- If a draft that is not only white space is submitted any number of times, each time after the
  -- answer, then whatever the server answers, the note is on record once and the field is empty if
  -- some attempt comes through, and else nothing is on record and the field keeps the draft.
  pub submit_all-once :
      (attempts : List Submission) (draft : String)
      → truthy (trim draft) ≡ true
      → submit_all attempts (record { draft = draft; recorded = [] }) ≡ (
          if any comes_through attempts
          then record { draft = ""; recorded = note_for draft ∷ [] }
          else record { draft = draft; recorded = [] })
  submit_all-once [] draft written = refl
  submit_all-once (a ∷ attempts) draft written =
      ap (submit_all attempts) (once_waiting a draft written)
      ∙ (elim (Bool-cases (comes_through a)) [
        | inl through ↦ rw through (all_done attempts draft)
        | inr stuck ↦ rw stuck (submit_all-once attempts draft written)
      ])
