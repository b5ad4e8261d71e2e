-- ===== src/Checks/AlertsChecks.antt =====
-- The order, the filter, the polling and the cursor of the alerts queue on concrete events.
use mathlib.Core.List.{Perm}
use sigil_manager.Prelude.{
  String, Bool, true, none, some, List, [], ◌∷◌, ◌≡◌, ◌↔◌, refl, map, less, trim, contains, filter,
}
use sigil_manager.Prelude.Sort.{sort}
use sigil_manager.Api.Fleet.{EventWithTriage, low}
use sigil_manager.Api.Triage.{open_status}
use sigil_manager.Alerts.Sorting.{severity_desc, age_desc, age_asc, sort_events}
use sigil_manager.Alerts.Sorting.Order.{InOrder, IsLevel, sort_events_lem}
use sigil_manager.Alerts.Filter.{AlertFilter, apply_client_filter}
use sigil_manager.Alerts.Filter.Visible.{IsWanted, apply_client_filter_lem}
use sigil_manager.Alerts.Polling.{refetch_interval}
use sigil_manager.Alerts.Polling.Pausing.{HoverEvent, enter, leave}
use sigil_manager.Alerts.Search.{AlertsSearch}
use sigil_manager.Alerts.Keyboard.{cursor_index, move_cursor, next_index}
use sigil_manager.Checks.Samples.{all_events}

alerts : Unit {0}
unfolding sort_events apply_client_filter refetch_interval cursor_index move_cursor next_index sort
    less trim contains
alerts = tt

abbrev ids : List EventWithTriage → List String
ids events = map (λ e. e.event_id) events

sorted :
    (ids (sort_events all_events severity_desc) ≡ "e3" ∷ "e1" ∷ "e2" ∷ [])
    × (ids (sort_events all_events age_desc) ≡ "e3" ∷ "e2" ∷ "e1" ∷ [])
    × (ids (sort_events all_events age_asc) ≡ "e1" ∷ "e2" ∷ "e3" ∷ [])
unfolding alerts
sorted = (refl, refl, refl)

abbrev identity : String → String
identity s = s

abbrev host_one : AlertFilter
host_one = record {
  min_bucket = low;
  triage_statuses = open_status ∷ [];
  since = none;
  query = " h1";
}

filtered : ids (apply_client_filter identity all_events host_one) ≡ "e1" ∷ "e3" ∷ []
unfolding alerts
filtered = refl

sort_events_lem_example :
    Perm (sort_events all_events severity_desc) all_events
    × InOrder severity_desc (sort_events all_events severity_desc)
    × ((k : EventWithTriage)
        → (alike : EventWithTriage → Bool) × ((x : EventWithTriage)
            → (alike x ≡ true) ↔ IsLevel severity_desc k x)
          × (filter alike (sort_events all_events severity_desc) ≡ filter alike all_events))
sort_events_lem_example = sort_events_lem all_events severity_desc

apply_client_filter_lem_example :
    (keep : EventWithTriage → Bool) × (apply_client_filter identity all_events host_one
      ≡ filter keep all_events)
    × ((ev : EventWithTriage) → (keep ev ≡ true) ↔ IsWanted identity host_one ev)
apply_client_filter_lem_example = apply_client_filter_lem identity all_events host_one

abbrev hovers : List HoverEvent
hovers = leave ∷ enter ∷ enter ∷ leave ∷ []

abbrev at_first : AlertsSearch
at_first = record {
  min_bucket = none;
  triage_statuses = none;
  since = none;
  query = none;
  alert = some "e1";
  sort = none;
}

found_first : cursor_index all_events at_first.alert ≡ some 0
unfolding alerts
found_first = refl
