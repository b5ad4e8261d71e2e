-- ===== src/Triage/Panel/Offers.antt =====
-- Which changes of the status the slide-over offers.
use sigil_manager.Prelude.{Bool, List, ◌≡◌, arith, ◌&&◌, not, map, filter, includes}
use sigil_manager.Api.Triage.{
  TriageStatus, open_status, acknowledged, investigating, resolved, status_beq, status_eq,
}
use sigil_manager.Triage.Panel.{ActionButton, action_buttons}

-- The statuses of the buttons that can be pressed.
abbrev pub offered : List ActionButton → List TriageStatus
offered buttons = map (λ b. b.sets) (filter (λ b. not b.disabled) buttons)

-- The statuses of the buttons that are drawn as the current one.
abbrev pub highlighted : List ActionButton → List TriageStatus
highlighted buttons = map (λ b. b.sets) (filter (λ b. b.active) buttons)

-- While a write is under way no status is offered. Otherwise every status is, the current one
-- included, but for opening an alert that is open. The button of the current status is highlighted,
-- and no other; none is for an open alert.
pub action_buttons-offered :
    (current s : TriageStatus) (is_pending : Bool)
    → let buttons = action_buttons current is_pending in
      (includes (offered buttons) s
        ≡ (not is_pending && not (status_beq s open_status && status_beq current open_status)))
      × (includes (highlighted buttons) s
          ≡ (status_beq current s && not (status_beq current open_status)))
unfolding action_buttons
action_buttons-offered open_status s is_pending = ground arith
action_buttons-offered acknowledged s is_pending = ground arith
action_buttons-offered investigating s is_pending = ground arith
action_buttons-offered resolved s is_pending = ground arith
