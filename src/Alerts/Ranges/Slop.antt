-- ===== src/Alerts/Ranges/Slop.antt =====
-- How long a chosen range is shown as chosen.
use sigil_manager.Prelude.{ℕ, ◌+◌, ◌-◌, ◌*◌, ◌≤◌, String, Option, some, ◌≡◌, refl, arith}
use sigil_manager.Alerts.Ranges.{
  Range, all, day, week, day_ms, week_ms, range_to_since, current_range,
}

-- A range that is chosen at one time is the current range for the next twelve hours, if a printed
-- time is read back and the clock is past the first week of 1970.
pub current_range-range_to_since :
    (iso : ℕ → String) (parse : String → Option ℕ) (chosen now : ℕ) (range : Range)
    → ((ms : ℕ) → parse (iso ms) ≡ some ms)
    → week_ms ≤ chosen
    → chosen ≤ now
    → now ≤ chosen + 12 * 60 * 60 * 1000
    → current_range parse now (range_to_since iso chosen range) ≡ range
unfolding current_range range_to_since
current_range-range_to_since iso parse chosen now all reads past later soon = refl
current_range-range_to_since iso parse chosen now day reads past later soon =
    ground (arith, reads (chosen - day_ms), past, later, soon)
current_range-range_to_since iso parse chosen now week reads past later soon =
    ground (arith, reads (chosen - week_ms), past, later, soon)
