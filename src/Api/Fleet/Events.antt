-- ===== src/Api/Fleet/Events.antt =====
-- The first half of web/src/api/fleet.ts: metadata, events and their evidence.
use sigil_manager.Api.Triage.{TriageStatus}
use sigil_manager.Prelude.{
  String, Bool, Option, none, some, List, [], ◌∷◌, ◌==◌, string_eq, includes, Number, Json, Fields,
  if◌then◌else◌,
}

pub record HealthzResponse : Type 0 where
  pub status : String
  pub ts : String

pub record FleetSummary : Type 0 where
  pub active_host_count : Number
  pub active_window_days : Number

pub record AuditHead : Type 0 where
  pub seq : Number
  pub hash : String
  pub sig : String
  pub pubkey_id : String
  pub pubkey : String

-- The severity buckets of the wire, where a type closes over them.
pub data Bucket : Type 0 where
  low medium high critical : Bucket

abbrev pub bucket_text : Bucket → String
bucket_text low = "low"
bucket_text medium = "medium"
bucket_text high = "high"
bucket_text critical = "critical"

-- A property that may be left out, or be null.
pub data Nullable {ℓ} (A : Type ℓ) : Type ℓ where
  undefined : Nullable A
  null : Nullable A
  present : A → Nullable A

-- The definition's lists come from Go slices, which can be null: the hook reads them by `?? []`.
pub record AlertsDefinition : Type 0 where
  pub evidence_kinds : Option (List String)
  pub ai_guard_buckets : Option (List String)
  pub additional_kinds : Option (List String)

pub record MetaResponse : Type 0 where
  pub server_version : String
  pub schema_version : Number
  pub ts : String
  pub alerts_definition_default : Option AlertsDefinition
  pub fleet : Option FleetSummary
  pub audit_head : Nullable AuditHead

pub record AiGuardControl : Type 0 where
  pub id : String
  pub source_path : String
  pub setting : String
  pub value : Json

pub data Scope : Type 0 where
  user_global : Scope
  project : (path : Option String) → Scope
  application : (app : String) → Scope

-- A reason is open: its kind, and all its entries in their order.
pub record ReasonLike : Type 0 where
  pub kind : String
  pub entries : Fields

pub record AiGuardEvidence : Type 0 where
  pub controls : Nullable (List AiGuardControl)
  pub tool : String
  pub tool_label : Option String
  pub scope : Scope
  pub score : Number
  pub bucket : String
  pub reasons : List ReasonLike
  pub is_reattestation : Bool

pub record HookInvocationEvidence : Type 0 where
  pub agent : String
  pub peer_uid : Number
  pub agent_session_id : Option String
  pub tool_use_id : Option String
  pub action_kind : String
  pub other_label : Option String
  pub action_hash : String
  pub action_preview : Option String
  pub capture_level : String
  pub capture_status : String

pub record HookDecisionEvidence : Type 0 where
  pub agent : String
  pub peer_uid : Number
  pub agent_session_id : Option String
  pub tool_use_id : Option String
  pub action_kind : String
  pub action_hash : String
  pub action_preview : Option String
  pub decision : String
  pub rule_id : Option String
  pub deny_reason : Option String
  pub enforcement_mode : Option String
  pub capture_level : String

pub record HookConfigDriftEvidence : Type 0 where
  pub agent : String
  pub peer_uid : Number
  pub drift_kind : String
  pub settings_path : String
  pub expected_command_hash : String
  pub observed_command_hash : Option String
  pub expected_matcher : Option String
  pub observed_matcher : Option String

pub record PossibleHookActivitySilentEvidence : Type 0 where
  pub agent : String
  pub uid : Option Number
  pub last_hook_seen_at : String
  pub last_session_activity_at : Option String
  pub window_secs : Number
  pub probe_kind : String
  pub path_hash : Option String
  pub probe_error : Option String
  pub scan_truncated : Bool
  pub confidence : String

pub data HookEvidence : Type 0 where
  hook_invocation : HookInvocationEvidence → HookEvidence
  hook_decision : HookDecisionEvidence → HookEvidence
  hook_config_drift : HookConfigDriftEvidence → HookEvidence
  possible_hook_activity_silent : PossibleHookActivitySilentEvidence → HookEvidence

pub record ToggleDriftEvidence : Type 0 where
  pub tool : String
  pub scope : Scope
  pub toggle : String
  pub rule_pack_id : Option String
  pub tool_label : Option String

-- The evidence of an event: the variants that the console decodes, and any other kind, whose
-- properties stay dynamic.
pub data Evidence : Type 0 where
  ai_guard_risk_assessed : AiGuardEvidence → Evidence
  hook : HookEvidence → Evidence
  ai_guard_toggle_drift : ToggleDriftEvidence → Evidence
  other_kind : (kind : String) → Fields → Evidence

abbrev pub hook_kind : HookEvidence → String
hook_kind (hook_invocation _) = "hook_invocation"
hook_kind (hook_decision _) = "hook_decision"
hook_kind (hook_config_drift _) = "hook_config_drift"
hook_kind (possible_hook_activity_silent _) = "possible_hook_activity_silent"

-- `evidence.kind`
abbrev pub kind_of : Evidence → String
kind_of (ai_guard_risk_assessed _) = "ai_guard_risk_assessed"
kind_of (hook h) = hook_kind h
kind_of (ai_guard_toggle_drift _) = "ai_guard_toggle_drift"
kind_of (other_kind kind _) = kind

-- One event. The code reads the evidence with guards, as if it could be missing.
pub record Event : Type 0 where
  pub schema_version : Number
  pub event_id : String
  pub ts : String
  pub host_id : String
  pub agent_version : String
  pub severity : String
  pub source : Json
  pub subject : Json
  pub evidence : Option Evidence
  pub target_id : Option String

abbrev pub hook_kinds : List String
hook_kinds =
    "hook_invocation" ∷ "hook_decision" ∷ "hook_config_drift" ∷ "possible_hook_activity_silent" ∷ []

-- `evidence as HookEvidence`, a cast: it is the variant that the kind names.
abbrev as_hook : Evidence → Option HookEvidence
as_hook (hook h) = some h
as_hook _ = none

abbrev as_toggle_drift : Evidence → Option ToggleDriftEvidence
as_toggle_drift (ai_guard_toggle_drift d) = some d
as_toggle_drift _ = none

abbrev as_ai_guard : Evidence → Option AiGuardEvidence
as_ai_guard (ai_guard_risk_assessed a) = some a
as_ai_guard _ = none

unfoldable pub extract_hook : Event → Option HookEvidence
extract_hook ev = elim ev.evidence [
  | none ↦ none
  | some e ↦ if includes hook_kinds (kind_of e) then as_hook e else none
]

unfoldable pub extract_toggle_drift : Event → Option ToggleDriftEvidence
extract_toggle_drift ev = elim ev.evidence [
  | none ↦ none
  | some e ↦ if kind_of e == "ai_guard_toggle_drift" then as_toggle_drift e else none
]

unfoldable pub extract_ai_guard : Event → Option AiGuardEvidence
extract_ai_guard ev = elim ev.evidence [
  | none ↦ none
  | some e ↦ if kind_of e == "ai_guard_risk_assessed" then as_ai_guard e else none
]

pub record TriageView : Type 0 where
  pub status : TriageStatus
  pub assignee : Option String
  pub updated_at : String

pub record EventWithTriage : Type 0 where
  pub event : Event
  pub open event use *
  pub triage : Option TriageView

pub record EventsPage : Type 0 where
  pub events : List EventWithTriage
  pub next_cursor : Option String
