-- ===== src/Checks/JourneysChecks.antt =====
-- What an operator does in several steps, on concrete events and answers.
use sigil_manager.Prelude.{
  ℕ, String, true, false, Option, none, some, List, [], ◌∷◌, ◌≡◌, refl, arith, truthy, trim,
  string_eq, nat_eq, Json, end, chars,
}
use sigil_manager.Api.Client.{Request, Fetched, response, Response, build_request}
use sigil_manager.Session.{me, login, returned, authed_before_load, login_before_load}
use sigil_manager.Session.Redirects.{codes, IsSitePath}
use sigil_manager.Session.SignIn.{new_page, on_answer}
use sigil_manager.Session.Return.{search_after, Answers, me_request, login_request, on_answer-back}
use sigil_manager.Alerts.Sorting.{severity_desc, sort_rows}
use sigil_manager.Alerts.Keyboard.{Page}
use sigil_manager.Alerts.Page.{Around}
use sigil_manager.Alerts.Page.Frame.{press_key}
use sigil_manager.Alerts.Page.Highlight.{HasMoved, press_key-HasMoved}
use sigil_manager.Alerts.Page.Marks.{StepsDown, StepsUp}
use sigil_manager.Triage.Attempts.{Submission, submit_all, note_for, submit_all-once}
use sigil_manager.Fleet.Events.{EventsSearch, on_submit, events_filter, validate_events_search}
use sigil_manager.Fleet.Events.Reload.{url_fields, events_filter-reload}
use sigil_manager.Checks.Samples.{all_events, old_high}

journeys : Unit {0}
unfolding trim build_request
journeys = tt

abbrev iso : ℕ → String
iso n = "2026-01-01T00:00:00.000Z"

abbrev read_time : String → Option ℕ
read_time s = some 0

abbrev identity : String → String
identity s = s

abbrev start : Page
start = record {
  path = "/alerts";
  search = record {
    min_bucket = none;
    triage_statuses = none;
    since = none;
    query = none;
    alert = none;
    sort = none;
  };
  cheatsheet_open = false;
}

abbrev around : Around
around = record {
  banner = none;
  rows = sort_rows all_events severity_desc;
  table = [];
  panel = none;
}

press_key-HasMoved_example :
    HasMoved identity identity StepsDown [] severity_desc all_events none none start
      (press_key iso read_time 0 "j" around start)
    × HasMoved identity identity StepsUp [] severity_desc all_events none none start
        (press_key iso read_time 0 "k" around start)
press_key-HasMoved_example =
    press_key-HasMoved identity identity iso read_time 0 [] severity_desc all_events none none
      around start (omega arith) (refl, (refl, (refl, tt))) refl refl

abbrev parse : String → Option Json
parse text = some (Json.object end)

abbrev show : ℕ → String
show n = "401"

abbrev no_session : Response
no_session = record { status = 401; status_text = "Unauthorized"; text = some "{}" }

abbrev welcome : Response
welcome = record { status = 200; status_text = "OK"; text = some "{}" }

-- The session request is refused, and everything else is accepted.
abbrev fetch : Request → Fetched
fetch r = elim r.method [ none ↦ response no_session | some m ↦ response welcome ]

abbrev fetch_then : Request → Fetched
fetch_then r = response welcome

refused : Answers fetch me_request no_session
unfolding journeys
refused = record { sent = refl; text = "{}"; read = refl }

accepted : Answers fetch (login_request "{}") welcome
unfolding journeys
accepted = record { sent = refl; text = "{}"; read = refl }

known : Answers fetch_then me_request welcome
known = record { sent = refl; text = "{}"; read = refl }

host_path : IsSitePath (codes (chars "/hosts/h1"))
host_path = ground arith

on_answer-back_example :
    let guard = authed_before_load "/hosts/h1" (me fetch parse show) in
    let search = search_after guard.end in
    (guard.cache_cleared ≡ true)
    × (login_before_load search (me fetch parse show) ≡ returned)
    × ((on_answer search (login fetch parse show "{}") new_page).1 ≡ some "/hosts/h1")
    × ((authed_before_load "/hosts/h1" (me fetch_then parse show)).end ≡ returned)
on_answer-back_example =
    on_answer-back fetch fetch_then parse show "/hosts/h1" "{}" new_page no_session welcome welcome
      host_path refused refl accepted refl known refl

-- The row is refused, then the note is, and then all is well.
abbrev attempts : List Submission
attempts =
    record { has_row = false; row_accepted = false; note_accepted = true }
    ∷ record { has_row = false; row_accepted = true; note_accepted = false }
    ∷ record { has_row = true; row_accepted = false; note_accepted = true }
    ∷ record { has_row = true; row_accepted = true; note_accepted = true }
    ∷ []

seen_written : truthy (trim " seen ") ≡ true
unfolding journeys
seen_written = refl

submit_all-once_example :
    submit_all old_high attempts (record { draft = " seen "; recorded = [] })
    ≡ record { draft = ""; recorded = note_for old_high " seen " ∷ [] }
submit_all-once_example = submit_all-once old_high attempts " seen " seen_written

abbrev nothing_searched : EventsSearch
nothing_searched = record {
  kind = none;
  host = none;
  since = none;
  until = none;
  event = some "e1";
  tool = none;
}

events_filter-reload_example :
    let sent = on_submit "a, b" "," " 2026 " "" "codex" nothing_searched in
    events_filter (validate_events_search (url_fields sent)) ≡ events_filter sent
events_filter-reload_example = events_filter-reload "a, b" "," " 2026 " "" "codex" nothing_searched
