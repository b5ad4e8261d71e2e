-- ===== src/Checks/NotesChecks.antt =====
-- The note field, the stale queries and the assignee field on concrete values.
use sigil_manager.Prelude.{
  true, false, none, some, [], ◌∷◌, ◌++◌, ◌≡◌, ◌⊎◌, ◌≢◌, refl, repeat, replicate, trim, truthy,
  Json,
}
use sigil_manager.Api.Triage.{TriageDetail, open_status, resolved}
use sigil_manager.Triage.Reopening
use sigil_manager.Triage.Reopening.{row_after, has_detail, unloaded, row_after-on_submit_note}
use sigil_manager.Triage.{on_assign, DetailOrNull, on_submit_note, upsert_stale, note_stale}
use sigil_manager.Triage.Panel.Sending.{
  NoteBox, note_of, click_note, on_note_key_down, on_row_answer, opened, enter-sends_again,
  submit-opens_again,
}
use sigil_manager.Triage.Panel.Assignee.{
  AssigneeField, on_server_assignee, updated_assignee, on_assign-shown,
}
use sigil_manager.Triage.Stale.{alerts, is_stale, is_stale_lem}
use sigil_manager.Checks.Samples.{old_high}

noted : Unit {0}
unfolding trim
noted = tt

abbrev seen : NoteBox
seen = record {
  draft = " seen ";
  has_row = true;
  rows = [];
  waiting = none;
  sent = [];
  is_pending = false;
}

abbrev unseen : NoteBox
unseen = record seen { has_row = false }

seen_written : truthy (trim " seen ") ≡ true
unfolding noted
seen_written = refl

enter-sends_again_example :
    ((repeat 3 (click_note old_high) seen).sent ≡ [] ++ note_of old_high seen ∷ [])
    × ((repeat 2 (λ b. on_note_key_down old_high "Enter" false b) seen).sent
        ≡ [] ++ replicate 2 (note_of old_high seen))
enter-sends_again_example = enter-sends_again old_high 2 seen seen_written refl refl

submit-opens_again_example :
    let entered = repeat 2 (λ b. on_note_key_down old_high "Enter" false b) unseen in
    let clicked = repeat 2 (click_note old_high) unseen in
    (clicked ≡ entered)
    × (entered.rows ≡ [] ++ replicate 2 (opened old_high))
    × (entered.sent ≡ [])
    × ((on_row_answer true entered).sent ≡ [] ++ note_of old_high unseen ∷ [])
    × ((on_row_answer true entered).rows ≡ entered.rows)
submit-opens_again_example = submit-opens_again old_high 1 unseen seen_written refl refl

is_stale_lem_example :
    (is_stale (upsert_stale "h1" "e1") (alerts "{}" "" "") ≡ true)
    × (is_stale (note_stale "h1" "e1") (alerts "{}" "" "") ≡ false)
is_stale_lem_example = is_stale_lem "h1" "e1" (alerts "{}" "" "")

abbrev detail : TriageDetail Json
detail = record {
  row = record {
    host_id = "h1";
    event_id = "e1";
    status = resolved;
    assignee = none;
    evidence_snapshot = Json.undefined;
    created_at = "2026-01-01T00:00:00Z";
    updated_at = "2026-01-01T00:00:00Z";
  };
  notes = [];
  log = [];
}

row_after-on_submit_note_example :
    let writes_with = λ (panel : DetailOrNull Json).
      (on_submit_note (λ _. true) (λ _. true) old_high (has_detail panel) " seen ").writes in
    (row_after (writes_with (unloaded Json none true)) resolved ≡ open_status)
    × (row_after (writes_with (Reopening.loaded Json detail)) resolved ≡ resolved)
row_after-on_submit_note_example =
    row_after-on_submit_note Json old_high " seen " resolved none true detail seen_written

-- " kim " is typed over lee, and the field loses the focus.
abbrev typed : AssigneeField
typed = record { draft = " kim "; is_focused = false; seen = some (some "lee") }

on_assign-shown_example :
    let saved = updated_assignee (some "lee") (on_assign old_high true " kim ") in
    let shown = on_server_assignee (some saved) typed in
    (((shown.draft ≡ trim " kim ") × (typed.is_focused ≡ false) × (typed.seen ≢ some saved))
      ⊎ ((shown.draft ≡ " kim ") × ((typed.is_focused ≡ true) ⊎ (typed.seen ≡ some saved))))
    × (updated_assignee saved (on_assign old_high true shown.draft) ≡ saved)
on_assign-shown_example = on_assign-shown old_high true (some "lee") typed
