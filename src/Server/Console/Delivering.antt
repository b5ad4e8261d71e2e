-- ===== src/Server/Console/Delivering.antt =====
-- A note in the slide-over of web/src/components/AlertsQueue/SlideOver.tsx, on a store whose database
-- does not fail.
use sigil_manager.Prelude.{
  ℕ, String, Bool, true, false, some, [], ◌∷◌, ◌++◌, ◌≡◌, refl, sym, ◌∙◌, inl, inr, arith,
  Option-cases, ◌==◌, string_eq, ◌||◌, find, truthy, trim, Option,
}
use sigil_manager.Api.Triage.{open_status, NotePayload}
use sigil_manager.Api.Fleet.{EventWithTriage, Evidence}
use sigil_manager.Triage.{set_status, on_submit_note}
use sigil_manager.Server.{Row, Store, is_row}
use sigil_manager.Server.Healthy.{any-none, append_note-ok}
use sigil_manager.Server.Notes.{new_note}
use sigil_manager.Server.Console.Submitting.{submit-keeps}
use sigil_manager.Server.Handlers.{is_replied, handle_triage_note}
use sigil_manager.Server.Console.Serving.{healthy, Knows, set_status-replied}
use sigil_manager.Server.Console.{put_row, put_note, perform, submit}

trim_filled : (draft : String) → draft ≡ "" → truthy (trim draft) ≡ true → ⊥
unfolding trim
trim_filled draft empty filled = absurd (ground (arith, rw empty at filled))

module _ (stringify : Option Evidence → String) (format : ℕ → String) (subject : String)
    (signed_in : (subject == "") ≡ false) (event : EventWithTriage)
    (addressed : (event.host_id == "" || event.event_id == "") ≡ false) (evidence : Evidence)
    (carried : event.evidence ≡ some evidence)
    (written : (stringify (some evidence) == "") ≡ false) where
  note_named :
      (draft : String)
      → truthy (trim draft) ≡ true
      → ((event.host_id == "" || event.event_id == "" || subject == "" || trim draft == "") ≡ false)
        × ((event.host_id == "" || event.event_id == "" || trim draft == "") ≡ false)
  note_named draft filled = ground (arith, addressed, signed_in, filled)

  abbrev note_of : String → NotePayload
  note_of draft = record { host_id = event.host_id; event_id = event.event_id; body = trim draft }

  put_note-replied :
      (now : ℕ) (draft : String) (row : Row) (s : Store)
      → truthy (trim draft) ≡ true
      → find (is_row event.host_id event.event_id) s.rows ≡ some row
      → is_replied (put_note stringify format subject (healthy now) (note_of draft) s).0 ≡ true
  unfolding handle_triage_note
  put_note-replied now draft row s filled found =
      let (named, guarded) = note_named draft filled in
      rw
        (
          guarded,
          append_note-ok now event.host_id event.event_id subject (trim draft) row s named found,
        )
        refl

  submit-draft :
      (row_at note_at : ℕ) (has_row : Bool) (draft : String) (s : Store)
      → Knows event has_row s
      → truthy (trim draft) ≡ true
      → (submit stringify format subject
          (healthy row_at)
          (healthy note_at)
          event
          has_row
          draft
          s).draft
        ≡ ""
  unfolding submit on_submit_note
  submit-draft row_at note_at true draft s knows filled =
      elim (Option-cases (find (is_row event.host_id event.event_id) s.rows)) [
        | inl free ↦
            absurd
              (ground (arith, any-none (is_row event.host_id event.event_id) s.rows free, knows))
        | inr (row, found) ↦ rw (filled, put_note-replied note_at draft row s filled found) refl
      ]
  submit-draft row_at note_at false draft s knows filled =
      let (accepted, (row, found, status)) =
        set_status-replied stringify format subject signed_in event addressed evidence carried
          written row_at false open_status s knows in
      let opened = set_status event false open_status in
      let s' = (put_row stringify format subject (healthy row_at) opened s).1 in
      rw (filled, accepted, put_note-replied note_at draft row s' filled found) refl

  -- Where the database does not fail, the panel is right about a row that it knows of, and the alert
  -- has evidence, a note that is not only white space comes through: it is the last note on record, by
  -- who has signed in, and the field is empty.
  pub submit-comes_through :
      (row_at note_at : ℕ) (has_row : Bool) (draft : String) (s : Store)
      → Knows event has_row s
      → truthy (trim draft) ≡ true
      → let sent =
          submit stringify format subject
            (healthy row_at)
            (healthy note_at)
            event
            has_row
            draft
            s in
        let s' =
          perform stringify format subject (healthy row_at) (healthy note_at) sent.writes s in
        (sent.draft ≡ "")
        × (s'.notes
            ≡ s.notes
              ++ (new_note note_at event.host_id event.event_id subject (trim draft) s ∷ []))
  submit-comes_through row_at note_at has_row draft s knows filled =
      let empty = submit-draft row_at note_at has_row draft s knows filled in
      elim (submit-keeps stringify format subject (healthy row_at) (healthy note_at) event has_row
        draft s) [
          | inl (left, notes, there) ↦ (left, notes)
          | inr (left, same) ↦ absurd (trim_filled draft (sym left ∙ empty) filled)
        ]
