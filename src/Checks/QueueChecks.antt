-- ===== src/Checks/QueueChecks.antt =====
-- The rows of the queue on concrete events.
use sigil_manager.Prelude.{String, true, false, [], ◌∷◌, ◌≡◌, refl, string_eq, split}
use sigil_manager.Api.Fleet.{extract_ai_guard}
use sigil_manager.Display.Labels.{human_tool}
use sigil_manager.Alerts.Queue.{Flash, on_events, on_timer, compute_title, display_host}
use sigil_manager.Alerts.Queue.Fresh.{Quiet, still, tick, Quiet-fresh_ids}
use sigil_manager.Checks.Samples.{old_high, new_low}

queue : Unit {0}
unfolding on_events on_timer compute_title display_host extract_ai_guard human_tool split
queue = tt

abbrev identity : String → String
identity s = s

shown :
    (compute_title identity old_high ≡ "AI Guard risk · Cursor")
    × (display_host "a1b2-c3d4" ≡ "a1b2")
unfolding queue
shown = (refl, refl)

-- One event is on the table, and two more come.
abbrev one_row : Flash
one_row = record { previous_ids = "e1" ∷ []; fresh_ids = []; timer = false }

abbrev flashing : Flash
flashing = record {
  previous_ids = "e1" ∷ "e2" ∷ "e3" ∷ [];
  fresh_ids = "e2" ∷ "e3" ∷ [];
  timer = true;
}

-- A row leaves the table before the timer of the two fresh ones fires, and the clock goes on.
ticked :
    Quiet
      (on_events (old_high ∷ new_low ∷ []) flashing)
      (on_timer (on_events (old_high ∷ new_low ∷ []) flashing))
ticked = tick still

Quiet-fresh_ids_example :
    (on_timer (on_events (old_high ∷ new_low ∷ []) flashing)).fresh_ids ≡ "e2" ∷ "e3" ∷ []
Quiet-fresh_ids_example =
    Quiet-fresh_ids (old_high ∷ new_low ∷ []) flashing
      (on_timer (on_events (old_high ∷ new_low ∷ []) flashing)) refl ticked
