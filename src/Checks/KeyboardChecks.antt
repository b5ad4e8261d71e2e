-- ===== src/Checks/KeyboardChecks.antt =====
-- Keys on the alerts page, with three rows and an alert open.
use sigil_manager.Prelude.{
  ℕ, String, true, false, Option, none, some, List, [], ◌∷◌, ◌≡◌, refl, arith, repeat, truthy?,
  string_eq, trim,
}
use sigil_manager.Api.Triage.{open_status, acknowledged, resolved}
use sigil_manager.Alerts.Search.{set_search}
use sigil_manager.Alerts.Keyboard.{Page, cursor_index}
use sigil_manager.Alerts.Page.{Around, PanelState, changes, pressed, on_key}
use sigil_manager.Alerts.Page.Triggers.{
  chip_of_investigating, writes, IsPlainPage, on_key-investigating, on_key-actions,
}
use sigil_manager.Alerts.Page.Frame.{press_key, route_after}
use sigil_manager.Alerts.Page.Going.{destination}
use sigil_manager.Alerts.Page.Walks.{press_key-reaches}
use sigil_manager.Checks.Samples.{all_events}

keyboard : Unit {0}
unfolding cursor_index trim destination
keyboard = tt

abbrev iso : ℕ → String
iso n = "2026-01-01T00:00:00.000Z"

abbrev parse : String → Option ℕ
parse s = some 0

abbrev first_page : Page
first_page = record {
  path = "/alerts";
  search = record {
    min_bucket = none;
    triage_statuses = none;
    since = none;
    query = none;
    alert = none;
    sort = none;
  };
  cheatsheet_open = true;
}

abbrev open_panel : PanelState
open_panel = record {
  current = open_status;
  is_pending = false;
  above = "×" ∷ [];
  below = "Assign" ∷ "Add note" ∷ [];
}

abbrev around : Around
around = record {
  banner = some false;
  rows = all_events;
  table = "Severity" ∷ "Age" ∷ "Load more" ∷ [];
  panel = some open_panel;
}

on_key-investigating_example :
    on_key iso parse 0 "i" around first_page
    ≡ some (record {
      page = record first_page {
        search = set_search first_page.search (chip_of_investigating first_page);
      };
      did = pressed (changes (chip_of_investigating first_page));
    })
on_key-investigating_example = on_key-investigating iso parse 0 around first_page

no_acknowledge : IsPlainPage "Acknowledge" around
unfolding keyboard
no_acknowledge = ((refl, (refl, (refl, tt))), ((refl, tt), (refl, (refl, tt))))

no_resolve : IsPlainPage "Resolve" around
unfolding keyboard
no_resolve = ((refl, (refl, (refl, tt))), ((refl, tt), (refl, (refl, tt))))

on_key-actions_example :
    (on_key iso parse 0 "c" around first_page
      ≡ some (record { page = first_page; did = writes acknowledged (some open_panel) }))
    × (on_key iso parse 0 "r" around first_page
        ≡ some (record { page = first_page; did = writes resolved (some open_panel) }))
on_key-actions_example = on_key-actions iso parse 0 around first_page no_acknowledge no_resolve

-- Down, back to the page without a search, down again, and off to the fleet.
abbrev presses : List (String × Around)
presses = ("j", around) ∷ ("g a", around) ∷ ("c", around) ∷ ("g f", around) ∷ ("j", around) ∷ []

-- The keys leave for the fleet.
off_to_fleet : route_after presses ≡ "/fleet"
unfolding keyboard
off_to_fleet = refl

no_cursor : cursor_index all_events first_page.search.alert ≡ none
unfolding keyboard
no_cursor = refl

press_key-reaches_example :
    let there = repeat 2 (press_key iso parse 0 "j" around) first_page in
    (cursor_index all_events there.search.alert ≡ some 1)
    × (let closed = repeat 2 (press_key iso parse 0 "Escape" around) there in
        (closed.cheatsheet_open ≡ false) × (truthy? closed.search.alert ≡ false))
press_key-reaches_example =
    press_key-reaches iso parse 0 around (refl, (refl, (refl, tt))) first_page 1 (omega arith)
      no_cursor
