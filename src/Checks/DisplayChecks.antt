-- ===== src/Checks/DisplayChecks.antt =====
-- Labels, pills and messages on concrete values.
use sigil_manager.Prelude.{ℕ, String, false, Option, none, some, ◌≡◌, refl, split, join, Json, pos}
use sigil_manager.Api.Client.{Request, Fetched, response, Response}
use sigil_manager.Api.Fleet.{ComplianceRow}
use sigil_manager.Display.Labels.{human_tool, human_kind, short_path}
use sigil_manager.Display.Status.{derive_compliance_status, failing_signature}
use sigil_manager.Checks.Samples.{number}

display : Unit {0}
unfolding human_tool human_kind short_path split join derive_compliance_status
display = tt

abbrev identity : String → String
identity s = s

labels :
    (human_tool "other" (some "Zed") ≡ "Zed")
    × (human_tool "cursor" (some "Zed") ≡ "Cursor")
    × (human_kind identity "policy_reloaded" ≡ "policy reloaded")
    × (short_path (some "/home/kim/src/app") ≡ "…/src/app")
    × (short_path (some "src/app") ≡ "src/app")
unfolding display
labels = (refl, refl, refl, refl, refl)

abbrev row : ComplianceRow
row = record {
  host_id = "h1";
  hostname = none;
  last_applied_policy_version = number "3";
  server_current_policy_version = number "5";
  version_drift = pos 2;
  policy_expired_active = false;
  last_policy_reload_ts = none;
  signature_failures_24h = pos 1;
}

pill : derive_compliance_status row ≡ failing_signature
unfolding display
pill = refl

abbrev disabled : Response
disabled = record { status = 502; status_text = "Bad Gateway"; text = some "" }

abbrev fetch : Request → Fetched
fetch r = response disabled

abbrev parse : String → Option Json
parse text = none

abbrev show : ℕ → String
show n = "502"
