-- ===== src/Checks/FleetChecks.antt =====
-- The fleet pages on concrete rows and URLs.
use sigil_manager.Prelude.{
  ℕ, String, Option, none, some, [], ◌∷◌, ◌≡◌, refl, Json, end, field, nat_eq,
}
use sigil_manager.Api.Client.{Request, Fetched, response, Response, no_init, api, safe_json}
use sigil_manager.Api.Client.Errors.{wire_code}
use sigil_manager.Api.Fleet.{EventWithTriage}
use sigil_manager.Fleet.Events.{FleetEventsFilter, fleet_events_rows}
use sigil_manager.Fleet.Hosts.{target_comparison}
use sigil_manager.Fleet.Details.{details_view, slide_over, unavailable}
use sigil_manager.Fleet.Details.Shown.{IsOfHost, details_view-slide_over}
use sigil_manager.Fleet.Notices.{connection_banner}
use sigil_manager.Fleet.Notices.Banners.{banner_for, connection_banner-api}
use sigil_manager.Checks.Samples.{event_of, old_high, all_events}

fleet : Unit {0}
unfolding fleet_events_rows target_comparison details_view
fleet = tt

abbrev identity : String → String
identity s = s

abbrev by_tool : FleetEventsFilter
by_tool = record {
  evidence_kinds = [];
  host_ids = [];
  since = none;
  until = none;
  tool = some "cursor";
}

abbrev bare : EventWithTriage
bare = event_of "e9" "h1" "2026-01-01T00:00:00Z" none

throws : fleet_events_rows identity by_tool (old_high ∷ bare ∷ []) ≡ none
unfolding fleet
throws = refl

elsewhere : details_view (some "e1") all_events (some "h2") none none ≡ unavailable
unfolding fleet
elsewhere = refl

no_answer : (a : EventWithTriage) → none ≡ some a → a.event_id ≡ "e1"
no_answer a h = cc

opens : details_view (some "e1") all_events (some "h1") none none ≡ slide_over old_high
unfolding fleet
opens = refl

details_view-slide_over_example : (old_high.event_id ≡ "e1") × IsOfHost (some "h1") old_high
details_view-slide_over_example =
    details_view-slide_over "e1" all_events (some "h1") none none old_high no_answer opens

abbrev show : ℕ → String
show n = "2"

abbrev expired_body : Json
expired_body =
    Json.object (field "error" (Json.object (field "code" (Json.string "session_expired") end)) end)

abbrev parse : String → Option Json
parse text = some expired_body

abbrev expired : Response
expired = record { status = 401; status_text = "Unauthorized"; text = some "{..}" }

abbrev fetch : Request → Fetched
fetch r = response expired

connection_banner-api_example :
    connection_banner (api fetch parse show "/fleet/healthz" no_init)
    ≡ banner_for 401 (wire_code (safe_json parse "{..}"))
connection_banner-api_example =
    connection_banner-api fetch parse show "/fleet/healthz" no_init expired "{..}" refl refl refl
