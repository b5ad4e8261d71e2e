-- ===== src/Triage/Facts.antt =====
-- The facts that the slide-over lists for an event, in web/src/components/AlertsQueue/SlideOver.tsx:
-- pairs of a label and the text beside it. `upper` is `toUpperCase`, and `age` prints how long ago a
-- time was.
use sigil_manager.Prelude.{
  String, Option, none, some, List, [], ◌∷◌, ◌++◌, if◌then◌else◌, ◌||◌, ◌==◌, string_eq, truthy,
  template, Number,
}
use sigil_manager.Api.Fleet.{
  HookEvidence, hook_invocation, hook_decision, hook_config_drift, possible_hook_activity_silent,
  ToggleDriftEvidence,
}
use sigil_manager.Display.Labels.{human_tool, human_kind, scope_label, hook_agent, hook_label}

-- One line of the list.
abbrev pub Fact : Type 0
Fact = String × String

-- `{value && <Fact …>}`
abbrev pub if_text : String → Option String → List Fact
if_text label none = []
if_text label (some t) = if truthy t then (label, t) ∷ [] else []

-- `value != null ? <Fact …> : null`
abbrev pub if_there : String → Option String → List Fact
if_there label none = []
if_there label (some t) = (label, t) ∷ []

abbrev pub decimal? : Option Number → Option String
decimal? none = none
decimal? (some n) = some n.decimal

module _ (upper : String → String) (age : String → String) where
  -- The properties that every kind of hook evidence is asked for, in the order of the list.
  unfoldable pub common_facts : HookEvidence → List Fact
  common_facts (hook_invocation h) =
      if_there (human_kind upper "peer_uid") (some h.peer_uid.decimal)
      ++ if_there (human_kind upper "agent_session_id") h.agent_session_id
      ++ if_there (human_kind upper "tool_use_id") h.tool_use_id
      ++ if_there (human_kind upper "action_hash") (some h.action_hash)
  common_facts (hook_decision h) =
      if_there (human_kind upper "peer_uid") (some h.peer_uid.decimal)
      ++ if_there (human_kind upper "agent_session_id") h.agent_session_id
      ++ if_there (human_kind upper "tool_use_id") h.tool_use_id
      ++ if_there (human_kind upper "action_hash") (some h.action_hash)
  common_facts (hook_config_drift h) =
      if_there (human_kind upper "peer_uid") (some h.peer_uid.decimal)
      ++ if_there (human_kind upper "expected_command_hash") (some h.expected_command_hash)
      ++ if_there (human_kind upper "observed_command_hash") h.observed_command_hash
  common_facts (possible_hook_activity_silent h) =
      if_there (human_kind upper "uid") (decimal? h.uid)
      ++ if_there (human_kind upper "last_session_activity_at") h.last_session_activity_at
      ++ if_there (human_kind upper "path_hash") h.path_hash
      ++ if_there (human_kind upper "probe_error") h.probe_error

  abbrev or_blank : Option String → String
  or_blank none = ""
  or_blank (some t) = t

  -- The sentence below the enforcement mode.
  abbrev enforcement_note : Option String → String
  enforcement_note mode =
      if or_blank mode == "observe"
      then "Observe mode records a decision; it does not establish that the action was blocked."
      else "Reported enforcement mode; the decision is not an execution outcome."

  -- The facts of one kind.
  unfoldable pub kind_facts : HookEvidence → List Fact
  kind_facts (hook_invocation h) =
      (("Action", h.action_kind) ∷ [])
      ++ if_text "Preview" h.action_preview
      ++ (("Capture", template (h.capture_level ∷ " · " ∷ h.capture_status ∷ [])) ∷ [])
  kind_facts (hook_decision h) =
      (("Decision", h.decision) ∷ ("Action", h.action_kind) ∷ [])
      ++ if_text "Rule" h.rule_id
      ++ if_text "Deny reason" h.deny_reason
      ++ ((
        "Enforcement",
        template (or_blank h.enforcement_mode ∷ enforcement_note h.enforcement_mode ∷ []),
      )
          ∷ [])
      ++ if_text "Preview" h.action_preview
      ++ (("Capture", h.capture_level) ∷ [])
  kind_facts (hook_config_drift h) =
      (("Drift", human_kind upper h.drift_kind) ∷ ("Settings", h.settings_path) ∷ [])
      ++ if_text "Expected" h.expected_matcher
      ++ if_text "Observed" h.observed_matcher
  kind_facts (possible_hook_activity_silent h) =
      (("Confidence", h.confidence)
        ∷ ("Window", template (h.window_secs.decimal ∷ "s" ∷ []))
        ∷ ("Last hook", template (age h.last_hook_seen_at ∷ " ago" ∷ []))
        ∷ ("Probe", h.probe_kind)
        ∷ [])
      ++ (if h.scan_truncated then ("Scan", "truncated") ∷ [] else [])

  unfoldable pub hook_facts : HookEvidence → List Fact
  unfolding common_facts kind_facts
  hook_facts hook =
      (("Tool", human_tool (hook_agent hook) (hook_label hook)) ∷ [])
      ++ common_facts hook
      ++ kind_facts hook

  unfoldable pub toggle_drift_facts : ToggleDriftEvidence → List Fact
  toggle_drift_facts drift =
      (("Tool", human_tool drift.tool drift.tool_label)
        ∷ ("Toggle", human_kind upper drift.toggle)
        ∷ ("Scope", scope_label (some drift.scope))
        ∷ [])
      ++ if_text "Rule pack" drift.rule_pack_id

unfoldable pub decision_tone : String → String
decision_tone decision =
    if decision == "deny" || decision == "block"
    then "text-sev-critical"
    else if decision == "allow"
    then "text-status-healthy"
    else "text-text-body"

-- `severityLabel`
unfoldable pub severity_label : String → String
severity_label s = if s == "warn" then "warn" else if s == "info" then "info" else s

-- `mutationErrorText`, of an error's message, where there is an error.
unfoldable pub mutation_error_text : Option String → String
mutation_error_text none = "please try again"
mutation_error_text (some message) = if truthy message then message else "please try again"
