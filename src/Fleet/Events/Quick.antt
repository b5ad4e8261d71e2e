-- ===== src/Fleet/Events/Quick.antt =====
-- The quick links for kinds of web/src/routes/_authed/fleet/events.tsx, and the other changes of the
-- page's search.
use sigil_manager.Prelude.{String, Option, none, some, List, [], ◌∷◌}
use sigil_manager.Api.Fleet.{hook_kinds}
use sigil_manager.Fleet.Events.{EventsSearch}

-- The links with the kinds that they choose; the other parts of the search stay.
abbrev pub kind_links : List (String × Option (List String))
kind_links =
    ("All kinds", none)
    ∷ ("AI Guard", some ("ai_guard_risk_assessed" ∷ []))
    ∷ ("Hooks", some hook_kinds)
    ∷ ("Toggle drift", some ("ai_guard_toggle_drift" ∷ []))
    ∷ []

unfoldable pub on_kind_link : Option (List String) → EventsSearch → EventsSearch
on_kind_link kinds search = record search { kind = kinds }

unfoldable pub on_event_select : (event_id : String) → EventsSearch → EventsSearch
on_event_select event_id search = record search { event = some event_id }

unfoldable pub on_event_close : EventsSearch → EventsSearch
on_event_close search = record search { event = none }
