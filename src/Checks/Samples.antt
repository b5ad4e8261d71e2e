-- ===== src/Checks/Samples.antt =====
-- Events that the checks run on.
use sigil_manager.Prelude.{String, false, Option, none, some, List, [], ◌∷◌, Json, Number}
use sigil_manager.Api.Fleet.{
  EventWithTriage, Evidence, AiGuardEvidence, ai_guard_risk_assessed, user_global, Nullable,
}

abbrev pub number : String → Number
number text = record { decimal = text }

abbrev pub risk : (tool bucket : String) → AiGuardEvidence
risk tool bucket = record {
  controls = Nullable.undefined;
  tool = tool;
  tool_label = none;
  scope = user_global;
  score = number "7.5";
  bucket = bucket;
  reasons = [];
  is_reattestation = false;
}

abbrev pub event_of : (id host ts : String) → Option Evidence → EventWithTriage
event_of id host ts evidence = record {
  event = record {
    schema_version = number "1";
    event_id = id;
    ts = ts;
    host_id = host;
    agent_version = "0.8.3";
    severity = "warn";
    source = Json.string "agent";
    subject = Json.undefined;
    evidence = evidence;
    target_id = none;
  };
  triage = none;
}

abbrev pub old_high : EventWithTriage
old_high =
    event_of "e1" "h1" "2026-01-01T00:00:00Z" (some (ai_guard_risk_assessed (risk "cursor" "high")))

abbrev pub new_low : EventWithTriage
new_low =
    event_of "e2" "h2" "2026-01-02T00:00:00Z" (some (ai_guard_risk_assessed (risk "codex" "low")))

abbrev pub new_high : EventWithTriage
new_high =
    event_of "e3" "h1" "2026-01-03T00:00:00Z" (some (ai_guard_risk_assessed (risk "codex" "high")))

abbrev pub all_events : List EventWithTriage
all_events = old_high ∷ new_low ∷ new_high ∷ []
