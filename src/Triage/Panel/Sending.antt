-- ===== src/Triage/Panel/Sending.antt =====
-- The note field of the slide-over: its button, its Enter key, and what a note that is on its way
-- changes, for an alert with a triage row and for one without.
use sigil_manager.Prelude.{
  ℕ, zero, suc, String, Bool, true, false, Option, none, some, List, [], ◌∷◌, ◌++◌, ◌≡◌, refl, sym,
  ap, ◌∙◌, arith, ◌&&◌, ◌||◌, if◌then◌else◌, not, ◌==◌, string_eq, truthy, trim, repeat, replicate,
}
use mathlib.Core.List.{append-nil, append_assoc}
use sigil_manager.Api.Triage.{NotePayload, UpsertPayload, open_status}
use sigil_manager.Api.Fleet.{EventWithTriage, Evidence}
use sigil_manager.Triage.{set_status}

-- The draft; whether the detail of the alert is there (`triage.data`); the writes of the row that were
-- sent, and the note that the callback of the last one sends; the notes that were sent, and
-- `appendNote.isPending`.
pub record NoteBox : Type 0 where
  pub draft : String
  pub has_row : Bool
  pub rows : List (UpsertPayload (Option Evidence))
  pub waiting : Option NotePayload
  pub sent : List NotePayload
  pub is_pending : Bool

abbrev pub note_of : EventWithTriage → NoteBox → NotePayload
note_of event box = record {
  host_id = event.host_id;
  event_id = event.event_id;
  body = trim box.draft;
}

-- `appendNote.mutate`
abbrev mutate_note : NotePayload → NoteBox → NoteBox
mutate_note note box = record box { sent = box.sent ++ note ∷ []; is_pending = true }

-- `upsert.mutate` with a callback, which takes the place of an earlier call's.
abbrev mutate_row : UpsertPayload (Option Evidence) → NotePayload → NoteBox → NoteBox
mutate_row row note box = record box { rows = box.rows ++ row ∷ []; waiting = some note }

-- `onSubmitNote`
unfoldable pub submit_note : EventWithTriage → NoteBox → NoteBox
submit_note event box =
    if truthy (trim box.draft)
    then if box.has_row
      then mutate_note (note_of event box) box
      else mutate_row (set_status event false open_status) (note_of event box) box
    else box

-- The answer to the last write of the row: its callback sends the note.
unfoldable pub on_row_answer : (success : Bool) → NoteBox → NoteBox
on_row_answer success box = elim box.waiting [
  | none ↦ box
  | some note ↦
      let done : NoteBox = record box { waiting = none } in
      if success then mutate_note note done else done
]

-- `disabled` of the button.
unfoldable pub note_disabled : NoteBox → Bool
note_disabled box = box.is_pending || not (truthy (trim box.draft))

unfoldable pub note_button_text : NoteBox → String
note_button_text box = if box.is_pending then "Sending…" else "Add note"

-- A click on the button: a disabled one submits nothing.
unfoldable pub click_note : EventWithTriage → NoteBox → NoteBox
unfolding submit_note note_disabled
click_note event box = if note_disabled box then box else submit_note event box

-- `onKeyDown` of the field.
unfoldable pub on_note_key_down :
    EventWithTriage → (key : String) (shift : Bool) → NoteBox → NoteBox
unfolding submit_note
on_note_key_down event key shift box =
    if (key == "Enter") && not shift then submit_note event box else box

-- The answer to the last note that was sent.
unfoldable pub on_note_answer : (success : Bool) → NoteBox → NoteBox
on_note_answer success box = record box {
  draft = if success then "" else box.draft;
  is_pending = false;
}

abbrev press_enter : EventWithTriage → NoteBox → NoteBox
press_enter event = on_note_key_down event "Enter" false

-- A write of the row that leaves the alert open.
abbrev pub opened : EventWithTriage → UpsertPayload (Option Evidence)
opened event = set_status event false open_status

module _ (event : EventWithTriage) where
  enter_once :
      (box : NoteBox)
      → truthy (trim box.draft) ≡ true
      → box.has_row ≡ true
      → press_enter event box ≡ mutate_note (note_of event box) box
  unfolding on_note_key_down
  enter_once box written there = ground arith

  entered :
      (n : ℕ) (box : NoteBox)
      → truthy (trim box.draft) ≡ true
      → box.has_row ≡ true
      → (repeat n (press_enter event) box).sent ≡ box.sent ++ replicate n (note_of event box)
  entered zero box written there = sym (append-nil box.sent)
  entered (suc n) box written there =
      ap (λ b. (repeat n (press_enter event) b).sent) (enter_once box written there)
      ∙ entered n (mutate_note (note_of event box) box) written there
      ∙ append_assoc box.sent (note_of event box ∷ []) (replicate n (note_of event box))

  busy_click : (box : NoteBox) → box.is_pending ≡ true → click_note event box ≡ box
  unfolding click_note
  busy_click box busy = ground arith

  busy_clicks :
      (n : ℕ) (box : NoteBox) → box.is_pending ≡ true → repeat n (click_note event) box ≡ box
  busy_clicks zero box busy = refl
  busy_clicks (suc n) box busy =
      ap (repeat n (click_note event)) (busy_click box busy) ∙ busy_clicks n box busy

  click-enter :
      (box : NoteBox)
      → truthy (trim box.draft) ≡ true
      → box.is_pending ≡ false
      → click_note event box ≡ press_enter event box
  unfolding click_note on_note_key_down
  click-enter box written free = ground arith

  -- With a draft that is not only white space, the detail of the alert there and no note on its way,
  -- until the answer comes any number of clicks on the button send the note once, but every press of
  -- Enter in the field sends it again.
  pub enter-sends_again :
      (n : ℕ) (box : NoteBox)
      → truthy (trim box.draft) ≡ true
      → box.is_pending ≡ false
      → box.has_row ≡ true
      → ((repeat (suc n) (click_note event) box).sent ≡ box.sent ++ note_of event box ∷ [])
        × ((repeat n (λ b. on_note_key_down event "Enter" false b) box).sent
            ≡ box.sent ++ replicate n (note_of event box))
  enter-sends_again n box written free there =
      let once = click-enter box written free ∙ enter_once box written there in
      (
        ap (λ b. (repeat n (click_note event) b).sent) once
            ∙ ap (λ b. b.sent) (busy_clicks n (mutate_note (note_of event box) box) refl),
        entered n box written there,
      )

  enter_opens :
      (box : NoteBox)
      → truthy (trim box.draft) ≡ true
      → box.has_row ≡ false
      → press_enter event box ≡ mutate_row (opened event) (note_of event box) box
  unfolding on_note_key_down
  enter_opens box written missing = ground arith

  -- Presses of Enter without a row, each of which sends the row again.
  opened_again :
      (n : ℕ) (box : NoteBox)
      → truthy (trim box.draft) ≡ true
      → box.has_row ≡ false
      → repeat (suc n) (press_enter event) box ≡ record box {
        rows = box.rows ++ replicate (suc n) (opened event);
        waiting = some (note_of event box);
      }
  opened_again zero box written missing = enter_opens box written missing
  opened_again (suc n) box written missing =
      ap (λ b. repeat (suc n) (press_enter event) b) (enter_opens box written missing)
      ∙ opened_again n (mutate_row (opened event) (note_of event box) box) written missing
      ∙ ap (λ rs. record box { rows = rs; waiting = some (note_of event box) })
          (append_assoc box.rows (opened event ∷ []) (replicate (suc n) (opened event)))

  -- A click does the same, since no note is on its way.
  clicked_again :
      (n : ℕ) (box : NoteBox)
      → truthy (trim box.draft) ≡ true
      → box.is_pending ≡ false
      → box.has_row ≡ false
      → repeat n (click_note event) box ≡ repeat n (press_enter event) box
  clicked_again zero box written free missing = refl
  clicked_again (suc n) box written free missing =
      let first = click-enter box written free ∙ enter_opens box written missing in
      ap (repeat n (click_note event)) first
      ∙ clicked_again n (mutate_row (opened event) (note_of event box) box) written free missing
      ∙ ap (repeat n (press_enter event)) (sym (enter_opens box written missing))

  -- With a draft that is not only white space, no detail of the alert and no note on its way, until an
  -- answer comes every click on the button and every press of Enter in the field sends a write of an
  -- open row, and none sends a note; once the last of these writes has succeeded, the note is sent
  -- once.
  pub submit-opens_again :
      (n : ℕ) (box : NoteBox)
      → truthy (trim box.draft) ≡ true
      → box.is_pending ≡ false
      → box.has_row ≡ false
      → let entered = repeat (suc n) (λ b. on_note_key_down event "Enter" false b) box in
        let clicked = repeat (suc n) (click_note event) box in
        (clicked ≡ entered)
        × (entered.rows ≡ box.rows ++ replicate (suc n) (opened event))
        × (entered.sent ≡ box.sent)
        × ((on_row_answer true entered).sent ≡ box.sent ++ note_of event box ∷ [])
        × ((on_row_answer true entered).rows ≡ entered.rows)
  unfolding on_row_answer
  submit-opens_again n box written free missing =
      let all = opened_again n box written missing in
      (
        clicked_again (suc n) box written free missing,
        ap (λ b. b.rows) all,
        ap (λ b. b.sent) all,
        ap (λ b. (on_row_answer true b).sent) all,
        ap (λ b. (on_row_answer true b).rows) all ∙ sym (ap (λ b. b.rows) all),
      )
