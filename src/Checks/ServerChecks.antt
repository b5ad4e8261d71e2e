-- ===== src/Checks/ServerChecks.antt =====
-- The triage store on concrete calls.
use Prim.Native.String.{[], ◌∷◌}
use sigil_manager.Prelude.{
  ℕ, zero, suc, String, true, false, not, Option, none, some, List, [], ◌∷◌, ◌++◌, ◌≡◌, ◌⊎◌, refl,
  arith, string_eq, find, any, filter, length, includes, All, IsPlain, chars, truthy, trim,
}
use sigil_manager.Prelude.Sort.{sort}
use sigil_manager.Api.Triage.{acknowledged, resolved, status_text, UpsertPayload}
use sigil_manager.Api.Fleet.{Evidence, ai_guard_risk_assessed}
use sigil_manager.Triage.{set_status}
use sigil_manager.Triage.Reopening.{updated_status}
use sigil_manager.Triage.Panel.Assignee.{updated_assignee}
use sigil_manager.Server.{
  Row, Note, LogEntry, UpsertInput, StoreError, empty_store, is_row, is_valid,
}
use sigil_manager.Server.Action.{ok, err, Faults, insert_log}
use sigil_manager.Server.Upsert.{upsert}
use sigil_manager.Server.Notes.{append_note, new_note, list_notes, list_log}
use sigil_manager.Server.Chain.{Chain}
use sigil_manager.Server.Sound.{IsSound}
use sigil_manager.Server.Runs.{
  Turn, upserting, noting, after_call, after_turns, after_turns-IsSound,
}
use sigil_manager.Server.History.{Rising, list_log-Chain}
use sigil_manager.Server.Healthy.{no_faults}
use sigil_manager.Server.Atomic.{upsert-settles}
use sigil_manager.Server.Recall.{append_note-listed}
use sigil_manager.Server.Listing.{wanted, row_after}
use sigil_manager.Server.Listing.Walks.{walk, walk-lists}
use sigil_manager.Server.Handlers.{
  handle_triage_upsert, replied, is_replied, handle_triage_get, GetResponse,
}
use sigil_manager.Server.Console.{Visit, received, put_row, submit, perform}
use sigil_manager.Server.Console.Submitting.{submit-keeps}
use sigil_manager.Server.Console.Serving.{healthy, set_status-shown}
use sigil_manager.Server.Console.Delivering.{submit-comes_through}
use sigil_manager.Server.Console.Rewriting.{put_row-updates}
use sigil_manager.Checks.Samples.{old_high, risk}

abbrev opening : UpsertInput
opening = record {
  host_id = "h1";
  event_id = "e1";
  status = "";
  assignee = none;
  clear_assignee = false;
  evidence_snapshot = "{}";
  actor = "admin";
}

abbrev acknowledging : UpsertInput
acknowledging = record opening { status = "acknowledged"; evidence_snapshot = "" }

abbrev loses_log : Faults
loses_log insert_log = true
loses_log _ = false

-- The second write of the status is rolled back.
abbrev turns : List Turn
turns =
    record { faults = no_faults; now = 1; call = upserting opening }
    ∷ record { faults = loses_log; now = 2; call = upserting acknowledging }
    ∷ record { faults = no_faults; now = 3; call = upserting acknowledging }
    ∷ record { faults = no_faults; now = 3; call = noting "h1" "e1" "admin" "seen" }
    ∷ []

abbrev the_row : Row
the_row = record {
  host_id = "h1";
  event_id = "e1";
  status = "acknowledged";
  assignee = none;
  evidence_snapshot = "{}";
  created_at = 1;
  updated_at = 3;
}

the_row_there : find (is_row "h1" "e1") (after_turns turns empty_store).rows ≡ some the_row
unfolding after_call upsert append_note is_valid
the_row_there = refl

after_turns-IsSound_example : IsSound (after_turns turns empty_store)
after_turns-IsSound_example = after_turns-IsSound turns

rising : Rising 0 turns 3
rising = (omega arith, (omega arith, (omega arith, (omega arith, omega arith))))

list_log-Chain_example :
    let s = after_turns turns empty_store in
    (log : List LogEntry) × (list_log no_faults "h1" "e1" s ≡ (ok log, s))
    × Chain none log (some "acknowledged")
list_log-Chain_example =
    list_log-Chain turns 3 rising no_faults "h1" "e1" the_row refl refl the_row_there

upsert-settles_example :
    let s = after_turns turns empty_store in
    let (r, s') = upsert loses_log 4 opening s in
    ((row : Row) × (r ≡ ok row)
      × (find (is_row "h1" "e1") s'.rows ≡ some row)
      × (find (is_row "h2" "e1") s'.rows ≡ find (is_row "h2" "e1") s.rows)
      × (s'.notes ≡ s.notes))
    ⊎ ((x : StoreError) × (r ≡ err x) × (s' ≡ s))
upsert-settles_example =
    upsert-settles loses_log 4 opening (after_turns turns empty_store) "h2" "e1" refl

append_note-listed_example :
    let s = after_turns turns empty_store in
    let note = new_note 3 "h1" "e1" "admin" "done" s in
    let (r, s') = append_note no_faults 3 "h1" "e1" "admin" "done" s in
    (r ≡ ok note)
    × ((old : List Note) × ((list_notes no_faults "h1" "e1" s).0 ≡ ok old)
        × ((list_notes no_faults "h1" "e1" s').0 ≡ ok (old ++ (note ∷ []))))
    × ((list_notes no_faults "h2" "e1" s').0 ≡ (list_notes no_faults "h2" "e1" s).0)
append_note-listed_example =
    append_note-listed turns 3 rising "h1" "e1" "admin" "done" the_row refl "h2" "e1" refl
      the_row_there

-- Times as so many strokes.
abbrev strokes : ℕ → String
strokes zero = ""
strokes (suc n) = String.◌∷◌ "i" (strokes n)

abbrev count : String → Option ℕ
count [] = some 0
count (c ∷ s) = elim (count s) [ none ↦ none | some n ↦ some (suc n) ]

count-strokes : (n : ℕ) → count (strokes n) ≡ some n
count-strokes zero = refl
count-strokes (suc n) = rw (count-strokes n) refl

strokes-IsPlain : (n : ℕ) → IsPlain b'|' (chars (strokes n))
strokes-IsPlain zero = tt
strokes-IsPlain (suc n) = ((λ e. ground (arith, e)), strokes-IsPlain n)

hosts-IsPlain : All (λ r. IsPlain b'|' (chars r.host_id)) (after_turns turns empty_store).rows
unfolding after_call upsert append_note is_valid
hosts-IsPlain = (((λ e. ground (arith, e)), ((λ e. ground (arith, e)), tt)), tt)

acknowledged-valid : any (λ x. not (is_valid x)) (wanted ("acknowledged" ∷ [])) ≡ false
unfolding is_valid
acknowledged-valid = refl

walk-lists_example :
    let s = after_turns turns empty_store in
    walk strokes count (suc (length s.rows)) ("acknowledged" ∷ []) 1 "" s
    ≡ ok (sort row_after (filter (λ r. includes ("acknowledged" ∷ []) r.status) s.rows))
walk-lists_example =
    walk-lists strokes count count-strokes strokes-IsPlain turns ("acknowledged" ∷ []) 1
      acknowledged-valid hosts-IsPlain

abbrev evidence_text : Option Evidence → String
evidence_text e = "{}"

abbrev submit_visit : Visit
submit_visit = record { faults = loses_log; now = 4 }

submit-keeps_example :
    let s = after_turns turns empty_store in
    let sent =
      submit evidence_text strokes "admin" (healthy 3) submit_visit old_high false " ok " s in
    let s' = perform evidence_text strokes "admin" (healthy 3) submit_visit sent.writes s in
    ((sent.draft ≡ "")
      × (s'.notes
          ≡ s.notes ++ (new_note 4 old_high.host_id old_high.event_id "admin" (trim " ok ") s ∷ []))
      × (any (is_row old_high.host_id old_high.event_id) s'.rows ≡ true))
    ⊎ ((sent.draft ≡ " ok ") × (s'.notes ≡ s.notes))
submit-keeps_example =
    submit-keeps evidence_text strokes "admin" (healthy 3) submit_visit old_high false " ok "
      (after_turns turns empty_store)

abbrev the_evidence : Evidence
the_evidence = ai_guard_risk_assessed (risk "cursor" "high")

set_status-shown_example :
    let s' =
      (put_row evidence_text strokes "admin"
        (healthy 4)
        (set_status old_high false acknowledged)
        (after_turns turns empty_store)).1 in
    (detail : GetResponse) × (handle_triage_get strokes no_faults old_high.host_id old_high.event_id
        s'
      ≡ (replied detail, s'))
    × (detail.row.status ≡ status_text acknowledged)
set_status-shown_example =
    set_status-shown evidence_text strokes "admin" refl old_high refl the_evidence refl refl 4 false
      acknowledged (after_turns turns empty_store) refl

written : truthy (trim " ok ") ≡ true
unfolding trim
written = refl

submit-comes_through_example :
    let s = after_turns turns empty_store in
    let sent =
      submit evidence_text strokes "admin" (healthy 4) (healthy 5) old_high false " ok " s in
    let s' = perform evidence_text strokes "admin" (healthy 4) (healthy 5) sent.writes s in
    (sent.draft ≡ "")
    × (s'.notes
        ≡ s.notes ++ (new_note 5 old_high.host_id old_high.event_id "admin" (trim " ok ") s ∷ []))
submit-comes_through_example =
    submit-comes_through evidence_text strokes "admin" refl old_high refl the_evidence refl refl 4 5
      false " ok " (after_turns turns empty_store) refl written

abbrev resolving : UpsertPayload (Option Evidence)
resolving = record {
  host_id = "h1";
  event_id = "e1";
  status = some resolved;
  assignee = some "kim";
  clear_assignee = some false;
  evidence_snapshot = none;
}

accepted :
    is_replied
      (put_row evidence_text strokes "admin"
        (healthy 4)
        resolving
        (after_turns turns empty_store)).0
    ≡ true
unfolding after_call upsert append_note is_valid received handle_triage_upsert
accepted = refl

put_row-updates_example :
    let s' =
      (put_row evidence_text strokes "admin"
        (healthy 4)
        resolving
        (after_turns turns empty_store)).1 in
    (after : Row) × (find (is_row "h1" "e1") s'.rows ≡ some after)
    × (after.status ≡ status_text (updated_status acknowledged resolving))
    × (after.assignee ≡ updated_assignee none resolving)
    × (after.evidence_snapshot ≡ "{}")
    × (after.created_at ≡ 1)
put_row-updates_example =
    put_row-updates evidence_text strokes "admin" (healthy 4) resolving
      (after_turns turns empty_store) the_row acknowledged the_row_there refl accepted
