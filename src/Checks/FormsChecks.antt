-- ===== src/Checks/FormsChecks.antt =====
-- The forms of the console, and the pages of a host and of the devices, on concrete values.
use sigil_manager.Paging.Params.{param_eq}
use sigil_manager.Prelude.{
  Option, arith, pos, ◌∷◌, ℕ, String, true, false, Option, none, some, [], ◌∷◌, ◌≡◌, refl, arith,
  string_eq, nat_eq, Json, end, field, is_space,
}
use sigil_manager.Api.Client.{Request, Fetched, response, Response, safe_json}
use sigil_manager.Api.Query.{Pairs}
use sigil_manager.Api.Fleet.{ComplianceRow, CompliancePage, HostDetail}
use sigil_manager.Checks.Samples.{number}
use sigil_manager.Session.{LoginSearch, login}
use sigil_manager.Session.SignIn.{LoginPage, new_page, on_answer, login_error, submit_disabled}
use sigil_manager.Session.SignIn.Answers.{said_of, on_answer-login}
use sigil_manager.Fleet.Events.{EventsSearch}
use sigil_manager.Fleet.Events.Form.{IsEntry, IsShown, resubmit, resubmit_lem}
use sigil_manager.Fleet.HostPage.{ComplianceFeed}

solid_forms : Unit {0}
unfolding is_space
solid_forms = tt

abbrev shared : EventsSearch
shared = record {
  kind = some ("policy_reloaded" ∷ "ai_guard" ∷ []);
  host = none;
  since = some "2026-01-01";
  until = none;
  event = some "e1";
  tool = some "codex";
}

reload-IsEntry : IsEntry "policy_reloaded"
unfolding solid_forms
reload-IsEntry = ground arith

guard-IsEntry : IsEntry "ai_guard"
unfolding solid_forms
guard-IsEntry = ground arith

shared-IsShown : IsShown shared
unfolding solid_forms
shared-IsShown = record {
  kind = (reload-IsEntry, (guard-IsEntry, tt));
  host = tt;
  since = (refl, refl);
  until = tt;
  tool = (refl, refl);
}

resubmit_lem_example : resubmit shared ≡ shared
resubmit_lem_example = resubmit_lem shared shared-IsShown

abbrev refused_body : Json
refused_body =
    Json.object (field "error" (Json.object (field "message" (Json.string "no") end)) end)

abbrev parse : String → Option Json
parse text = some refused_body

abbrev show : ℕ → String
show n = "403"

abbrev refused : Response
refused = record { status = 403; status_text = "Forbidden"; text = some "{..}" }

abbrev fetch : Request → Fetched
fetch r = response refused

abbrev no_search : LoginSearch
no_search = record { redirect = none; oidc_error = none }

abbrev filled_in : LoginPage
filled_in = record new_page { username = "kim"; password = "secret" }

on_answer-login_example :
    let after = on_answer no_search (login fetch parse show "{}") filled_in in
    (after.1 ≡ none)
    × (login_error after.0 ≡ said_of show refused (safe_json parse "{..}"))
    × (submit_disabled after.0 ≡ false)
    × (after.0.username ≡ "kim")
    × (after.0.password ≡ "secret")
on_answer-login_example =
    on_answer-login fetch parse show no_search "{}" filled_in refused "{..}" refl refl

abbrev query_text : Pairs → String
query_text pairs = ""

abbrev encode : String → String
encode s = s

abbrev decode : Json → HostDetail
decode v = record {
  summary = record {
    host_id = "h1";
    hostname = none;
    agent_version = "1.2.0";
    last_seen_ts = "2026-01-01T00:00:00Z";
    status = "online";
    current_risk = none;
    open_event_counts_24h = [];
  };
  host_meta = none;
  policy_state = none;
  agent_health = none;
  ai_guard = none;
}

abbrev distance : String → Option String
distance ts = some "2 days"

abbrev no_feed : ComplianceFeed
no_feed = record {
  rows = [];
  has_error = false;
  cursor_repeated = false;
  is_pending = true;
  has_more = false;
  is_fetching = true;
}

abbrev compliance_of : (host_id : String) → ComplianceRow
compliance_of host_id = record {
  host_id = host_id;
  hostname = none;
  last_applied_policy_version = number "3";
  server_current_policy_version = number "3";
  version_drift = pos 0;
  policy_expired_active = false;
  last_policy_reload_ts = none;
  signature_failures_24h = pos 0;
}

-- A server of two pages, whose second one gives the first cursor again.
abbrev compliance_page : (host_id : String) → CompliancePage
compliance_page host_id = record { rows = compliance_of host_id ∷ []; next_cursor = some "c1" }

abbrev next_page : String → Option CompliancePage
next_page cursor = some (compliance_page "h2")
