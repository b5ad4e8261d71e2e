-- ===== src/Server/Console.antt =====
-- The slide-over of web/src/components/AlertsQueue/SlideOver.tsx on the triage store: what its writes
-- become at internal/api/v1/triage.go. `stringify` is the JSON that decoding keeps of the evidence of an
-- event, which for `null` is a text as well and is empty only where the evidence is missing;
-- `format` writes a time, and `subject` is who has signed in.
pub mod Submitting
pub mod Serving
pub mod Delivering
pub mod Rewriting
use sigil_manager.Prelude.{
  ℕ, String, Bool, true, false, Option, none, some, List, [], ◌∷◌, ◌++◌, ◌≡◌, ◌⊎◌, refl, sym, ap,
  ◌∙◌, inl, inr, arith, Bool-cases, if◌then◌else◌, ◌==◌, string_eq, ◌&&◌, ◌||◌, not, find, any,
  truthy, trim,
}
use sigil_manager.Api.Triage.{
  TriageStatus, open_status, acknowledged, investigating, resolved, status_text, UpsertPayload,
  NotePayload,
}
use sigil_manager.Api.Fleet.{EventWithTriage, Evidence}
use sigil_manager.Triage.{Write, upserted, noted, Submitted, on_submit_note, set_status}
use sigil_manager.Triage.Panel.Assignee.{is_set}
use sigil_manager.Server.{Row, Note, Store, StoreError, is_row}
use sigil_manager.Server.Action.{Result, ok, err, Faults}
use sigil_manager.Server.Notes.{new_note, append_note, append_note-ends}
use sigil_manager.Server.Effects.{upsert-ends}
use sigil_manager.Server.Tables.{any-find}
use sigil_manager.Server.Handlers.{
  UpsertRequest, RowResponse, NoteRequest, NoteResponse, Reply, replied, refused, is_replied,
  handle_triage_upsert, handle_triage_note, map_triage_err, reply_of, upsert_input, row_to_response,
  note_to_response,
}

-- A request arrives: when, and where the database fails.
pub record Visit : Type 0 where
  pub faults : Faults
  pub now : ℕ

abbrev pub text_or_empty : Option String → String
text_or_empty none = ""
text_or_empty (some t) = t

abbrev pub status_or_empty : Option TriageStatus → String
status_or_empty none = ""
status_or_empty (some s) = status_text s

-- What decoding the body leaves of a note: every field is there.
abbrev pub received_note : NotePayload → NoteRequest
received_note n = record { host_id = n.host_id; event_id = n.event_id; body = n.body }

module _ (stringify : Option Evidence → String) where
  -- What decoding the body leaves of a payload: a field that is left out is the zero value.
  unfoldable pub received : UpsertPayload (Option Evidence) → UpsertRequest
  received p = record {
    host_id = p.host_id;
    event_id = p.event_id;
    status = status_or_empty p.status;
    assignee = p.assignee;
    clear_assignee = is_set p.clear_assignee;
    evidence_snapshot = elim p.evidence_snapshot [ none ↦ "" | some e ↦ stringify e ];
  }

  module _ (format : ℕ → String) (subject : String) where
    abbrev pub put_row : Visit → UpsertPayload (Option Evidence) → Store → Reply RowResponse × Store
    put_row v p s = handle_triage_upsert format v.faults v.now subject (some (received p)) s

    abbrev pub put_note : Visit → NotePayload → Store → Reply NoteResponse × Store
    put_note v n s = handle_triage_note format v.faults v.now subject (some (received_note n)) s

    module _ (at_row at_note : Visit) where
      -- The store after the writes, each as it arrives.
      abbrev pub perform : List Write → Store → Store
      perform [] s = s
      perform (upserted p accepted ∷ ws) s = perform ws (put_row at_row p s).1
      perform (noted n accepted ∷ ws) s = perform ws (put_note at_note n s).1

      -- Submitting a note to this store: the note is answered after the row, if that is written.
      unfoldable pub submit : EventWithTriage → (has_row : Bool) → String → Store → Submitted
      submit event has_row draft s =
          let before_note =
            if has_row then s else (put_row at_row (set_status event false open_status) s).1 in
          on_submit_note (λ p. is_replied (put_row at_row p s).0)
            (λ n. is_replied (put_note at_note n before_note).0) event has_row draft
