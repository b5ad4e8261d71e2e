-- ===== src/Checks/ShortcutsChecks.antt =====
-- The keyboard binder on concrete presses.
use sigil_manager.Prelude.{
  String, Bool, false, none, [], ◌∷◌, ◌≡◌, refl, arith, string_eq, includes,
}
use sigil_manager.Shortcuts.{KeyboardEvent, press, expire}
use sigil_manager.Shortcuts.Presses.{History, leader_after, expected, press_lem}

abbrev handlers : String → Bool
handlers combo = includes ("g a" ∷ "j" ∷ "a" ∷ []) combo

abbrev key_press : String → KeyboardEvent
key_press k = record { key = k; ctrl_key = false; meta_key = false; alt_key = false; target = none }

abbrev after_g : History
after_g = (1000, key_press "g") ∷ (200, key_press "j") ∷ []

press_lem_example :
    (press handlers 1500 (key_press "a") (expire 1500 (leader_after handlers after_g))).ran
    ≡ expected handlers after_g 1500 (key_press "a")
press_lem_example =
    press_lem handlers after_g 1500 (key_press "a") refl (omega arith, (omega arith, tt))
      (omega arith)
