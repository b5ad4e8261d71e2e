-- ===== src/Shortcuts.antt =====
-- The global keyboard binder, web/src/hooks/useShortcuts.ts: which handler a key press runs, and the
-- state of the leader key with its timer. Time is in milliseconds.
pub mod Presses
use sigil_manager.Prelude.{
  ℕ, ◌+◌, String, Bool, true, false, Option, none, some, List, [], ◌∷◌, ◌||◌, if◌then◌else◌, ◌==◌,
  string_eq, leb, template,
}

abbrev pub leader_timeout_ms : ℕ
leader_timeout_ms = 1000

-- The target of an event: no HTML element, or one with these properties.
pub record Element : Type 0 where
  pub tag_name : String
  pub is_content_editable : Bool
  pub role : Option String

pub record KeyboardEvent : Type 0 where
  pub key : String
  pub ctrl_key : Bool
  pub meta_key : Bool
  pub alt_key : Bool
  pub target : Option Element

unfoldable pub is_typing_target : Option Element → Bool
is_typing_target none = false
is_typing_target (some t) =
    if t.tag_name == "INPUT" || t.tag_name == "TEXTAREA" || t.tag_name == "SELECT"
    then true
    else if t.is_content_editable
    then true
    else (elim t.role [ none ↦ false | some r ↦ r == "textbox" ])

-- `leaderActive` and `leaderTimer`, the timer as the time at which it fires.
pub record Leader : Type 0 where
  pub active : Bool
  pub timer : Option ℕ

abbrev pub clear_leader : Leader → Leader
clear_leader l = record { active = false; timer = none }

-- What a press does: the binding whose handler runs, with `preventDefault`, or nothing.
pub record Pressed : Type 0 where
  pub leader : Leader
  pub ran : Option String

module _ (handlers : String → Bool) where
  abbrev run_single : KeyboardEvent → Leader → Pressed
  run_single e l = record { leader = l; ran = if handlers e.key then some e.key else none }

  -- `if (e.key === 'g') { … }` and what follows it.
  single : ℕ → KeyboardEvent → Leader → Pressed
  single now e l =
      if e.key == "g"
      then record {
        leader = record { active = true; timer = some (now + leader_timeout_ms) };
        ran = none;
      }
      else run_single e l

  -- `handler(e)` at the time `now`.
  unfoldable pub press : ℕ → KeyboardEvent → Leader → Pressed
  unfolding single is_typing_target
  press now e l =
      if e.key == "Escape"
      then record {
        leader = clear_leader l;
        ran = if handlers "Escape" then some "Escape" else none;
      }
      else if is_typing_target e.target
      then record { leader = l; ran = none }
      else if e.ctrl_key || e.meta_key || e.alt_key
      then record { leader = l; ran = none }
      else if l.active
      then (let combo = template ("g " ∷ e.key ∷ []) in
          if handlers combo
          then record { leader = clear_leader l; ran = some combo }
          else single now e (clear_leader l))
      else single now e l

-- The timer fires before what happens at its time or later.
unfoldable pub expire : ℕ → Leader → Leader
expire now l = elim l.timer [ none ↦ l | some t ↦ if leb t now then clear_leader l else l ]
