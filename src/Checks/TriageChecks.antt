-- ===== src/Checks/TriageChecks.antt =====
-- The triage of an alert on concrete answers.
use sigil_manager.Prelude.{Option, ℕ, Bool, true, false, ◌≡◌, refl, if◌then◌else◌, any, All, Json}
use sigil_manager.Api.Client.{Failure, Outcome, rejected, api_error, not_found}
use sigil_manager.Api.Triage.{UpsertPayload, NotePayload}
use sigil_manager.Api.Fleet.{Evidence}
use sigil_manager.Triage.{on_submit_note, retry}
use sigil_manager.Triage.Retries.{Settles, gives_up}
use sigil_manager.Triage.Writes.{HasRow, HasText, is_recorded, on_submit_note_lem}
use sigil_manager.Checks.Samples.{old_high}

abbrev accepts_rows : UpsertPayload (Option Evidence) → Bool
accepts_rows p = true

abbrev loses_notes : NotePayload → Bool
loses_notes n = false

on_submit_note_lem_example :
    let sent = on_submit_note accepts_rows loses_notes old_high false " seen " in
    HasRow false sent.writes
    × All HasText sent.writes
    × (sent.draft ≡ (if any is_recorded sent.writes then "" else " seen "))
on_submit_note_lem_example = on_submit_note_lem accepts_rows loses_notes old_high false " seen "

abbrev missing : Failure
missing = api_error (record {
  class = not_found;
  name = "NotFoundError";
  status = 404;
  code = Json.string "not_found";
  message = Json.string "no row";
})

abbrev always_missing : ℕ → Outcome
always_missing n = rejected missing

abbrev one : ℕ
one = 1

once : Settles always_missing 0 (rejected missing) one
unfolding retry
once = gives_up refl refl
