-- ===== src/Server/Console/Submitting.antt =====
-- Submitting a note: `onSubmitNote` of web/src/components/AlertsQueue/SlideOver.tsx over the store of
-- internal/triage/repo.go.
use sigil_manager.Prelude.{
  ℕ, String, Bool, true, false, [], ◌∷◌, ◌++◌, ◌≡◌, ◌⊎◌, refl, ◌∙◌, inl, inr, Bool-cases,
  if◌then◌else◌, string_eq, any, truthy, trim, Option,
}
use sigil_manager.Api.Triage.{open_status, UpsertPayload, NotePayload}
use sigil_manager.Api.Fleet.{EventWithTriage, Evidence}
use sigil_manager.Triage.{on_submit_note, set_status}
use sigil_manager.Server.{Store, is_row}
use sigil_manager.Server.Notes.{new_note}
use sigil_manager.Server.Tables.{any-find}
use sigil_manager.Server.Handlers.{is_replied}
use sigil_manager.Server.Replies.{handle_triage_upsert-ends, handle_triage_note-ends}
use sigil_manager.Server.Console.{
  Visit, received, received_note, put_row, put_note, perform, submit,
}

module _ (stringify : Option Evidence → String) (format : ℕ → String) (subject : String) where
  -- A write of a row leaves the notes alone.
  put_row-notes :
      (v : Visit) (p : UpsertPayload (Option Evidence)) (s : Store)
      → (put_row stringify format subject v p s).1.notes ≡ s.notes
  put_row-notes v p s =
      handle_triage_upsert-ends format v.faults v.now subject (λ r. r.1.notes ≡ s.notes)
        (received stringify p) s (λ status code. refl) (λ free right given. refl)
        λ row found right. refl

  -- A note is on record exactly if the reply says so, and then it is on a row.
  abbrev Records : Visit → NotePayload → Store → Bool → Store → Type 0
  Records v n s accepted s' =
      ((accepted ≡ true)
        × (s'.notes ≡ s.notes ++ (new_note v.now n.host_id n.event_id subject n.body s ∷ []))
        × (any (is_row n.host_id n.event_id) s'.rows ≡ true))
      ⊎ ((accepted ≡ false) × (s'.notes ≡ s.notes))

  put_note-Records :
      (v : Visit) (n : NotePayload) (s : Store)
      → let (r, s') = put_note stringify format subject v n s in Records v n s (is_replied r) s'
  put_note-Records v n s =
      handle_triage_note-ends format v.faults v.now subject
        (λ r. Records v n s (is_replied r.0) r.1) (received_note n) s
        (λ status code. inr (refl, refl))
        λ row found. inl (refl, refl, any-find (is_row n.host_id n.event_id) s.rows row found)

  module _ (at_row at_note : Visit) where
    -- The note in the field is on record, or the field keeps it.
    abbrev Keeps : EventWithTriage → String → Store → String → Store → Type 0
    Keeps event draft s left s' =
        ((left ≡ "")
          × (s'.notes
              ≡ s.notes
                ++ (new_note at_note.now event.host_id event.event_id subject (trim draft) s ∷ []))
          × (any (is_row event.host_id event.event_id) s'.rows ≡ true))
        ⊎ ((left ≡ draft) × (s'.notes ≡ s.notes))

    abbrev note_of : EventWithTriage → String → NotePayload
    note_of event draft = record {
      host_id = event.host_id;
      event_id = event.event_id;
      body = trim draft;
    }

    Records-Keeps :
        (event : EventWithTriage) (draft : String) (s s1 s2 : Store) (b : Bool)
        → s1.notes ≡ s.notes
        → Records at_note (note_of event draft) s1 b s2
        → Keeps event draft s (if b then "" else draft) s2
    Records-Keeps event draft s s1 s2 b same (inl (kept, notes, there)) =
        inl (rw kept refl, rw same at notes, there)
    Records-Keeps event draft s s1 s2 b same (inr (lost, notes)) = inr (rw lost refl, notes ∙ same)

    submit_written-Keeps :
        (event : EventWithTriage) (has_row : Bool) (draft : String) (s : Store)
        → truthy (trim draft) ≡ true
        → let sent = submit stringify format subject at_row at_note event has_row draft s in
          Keeps event draft s sent.draft
            (perform stringify format subject at_row at_note sent.writes s)
    unfolding submit on_submit_note
    submit_written-Keeps event true draft s written =
        let (r, s') = put_note stringify format subject at_note (note_of event draft) s in
        rw written (
          Records-Keeps event draft s s s' (is_replied r) refl
            (put_note-Records at_note (note_of event draft) s))
    submit_written-Keeps event false draft s written =
        let opened = set_status event false open_status in
        let (r, s1) = put_row stringify format subject at_row opened s in
        let same = put_row-notes at_row opened s in
        elim (Bool-cases (is_replied r)) [
          | inl accepted ↦
              let (q, s2) = put_note stringify format subject at_note (note_of event draft) s1 in
              rw (written, accepted)
                (Records-Keeps event draft s s1 s2 (is_replied q) same
                  (put_note-Records at_note (note_of event draft) s1))
          | inr rejected ↦ rw (written, rejected) (inr (refl, same))
        ]

    -- Whatever the panel takes for known, wherever the database fails and whatever the store holds: if
    -- the field is empty after a note was submitted and the requests were answered, the trimmed text
    -- is the last note on record, by who has signed in, on a row that is there; else the field keeps
    -- the draft, and no note was added or lost.
    pub submit-keeps :
        (event : EventWithTriage) (has_row : Bool) (draft : String) (s : Store)
        → let sent = submit stringify format subject at_row at_note event has_row draft s in
          let s' = perform stringify format subject at_row at_note sent.writes s in
          ((sent.draft ≡ "")
            × (s'.notes
                ≡ s.notes
                  ++ (new_note at_note.now event.host_id event.event_id subject (trim draft) s
                      ∷ []))
            × (any (is_row event.host_id event.event_id) s'.rows ≡ true))
          ⊎ ((sent.draft ≡ draft) × (s'.notes ≡ s.notes))
    unfolding submit on_submit_note
    submit-keeps event has_row draft s = elim (Bool-cases (truthy (trim draft))) [
      | inl written ↦ submit_written-Keeps event has_row draft s written
      | inr empty ↦ rw empty (inr (refl, refl))
    ]
