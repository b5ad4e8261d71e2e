-- ===== src/Alerts/Queue.antt =====
-- web/src/components/AlertsQueue/QueueRow.tsx and QueueTable.tsx: what a row shows, and which rows
-- flash as fresh.
pub mod Fresh
use sigil_manager.Prelude.{
  ℕ, String, Bool, true, false, Option, none, some, List, [], ◌∷◌, ◌&&◌, not, if◌then◌else◌, ◌==◌,
  string_eq, map, filter, length, ltb, includes, truthy, template, split,
}
use sigil_manager.Api.Fleet.{
  Event, EventWithTriage, AiGuardEvidence, kind_of, extract_ai_guard, extract_hook,
  extract_toggle_drift, ReasonLike,
}
use sigil_manager.Api.Triage.{
  TriageStatus, open_status, acknowledged, investigating, resolved, status_text,
}
use sigil_manager.Display.Labels.{human_tool, human_kind, hook_title}

unfoldable pub severity_to_bucket : String → String
severity_to_bucket severity =
    if severity == "warn" then "medium" else if severity == "info" then "info" else "info"

-- `-`, by its code.
abbrev hyphen : ℕ
hyphen = 0x2d

-- `hostID.split('-')[0] ?? hostID`
unfoldable pub display_host : String → String
display_host host_id = elim (split hyphen host_id) [ [] ↦ host_id | s ∷ ss ↦ s ]

abbrev pub kind_titles : List (String × String)
kind_titles =
    ("ai_guard_risk_assessed", "AI Guard risk")
    ∷ ("host_meta_snapshot", "Host metadata")
    ∷ ("heartbeat", "Heartbeat")
    ∷ ("policy_reloaded", "Policy reloaded")
    ∷ ("policy_signature_invalid", "Policy signature invalid")
    ∷ ("tls_failure", "TLS failure")
    ∷ ("host_id_fingerprint_drift", "Host ID fingerprint drift")
    ∷ ("agent_dying", "Agent dying")
    ∷ ("sender_lag_critical", "Sender lag critical")
    ∷ ("file_change", "File change")
    ∷ []

-- `record[k]`, of an own property.
abbrev pub title_of : String → List (String × String) → Option String
title_of k [] = none
title_of k ((j, t) ∷ rest) = let more = title_of k rest in if j == k then some t else more

module _ (upper : String → String) where
  -- The title of a risk assessment, from the first of its reasons. The wire may leave them out.
  unfoldable pub ai_guard_title : AiGuardEvidence → String
  ai_guard_title ag =
      let tool = human_tool ag.tool ag.tool_label in
      let plain = template ("AI Guard risk · " ∷ tool ∷ []) in
      elim ag.reasons [
        | [] ↦ plain
        | r ∷ rs ↦
            if truthy r.kind
            then template ("AI Guard risk: " ∷ human_kind upper r.kind ∷ " · " ∷ tool ∷ [])
            else plain
      ]

  -- The title of an event of a kind that has no form of its own. Without evidence the table is read
  -- at `undefined`, which it does not have.
  unfoldable pub kind_title : Option String → String
  kind_title none = human_kind upper "unknown"
  kind_title (some kind) = elim (title_of kind kind_titles) [
    | none ↦ human_kind upper kind
    | some title ↦ title
  ]

  unfoldable pub compute_title : EventWithTriage → String
  unfolding ai_guard_title kind_title
  compute_title ev = elim (extract_ai_guard ev.event) [
    | some ag ↦ ai_guard_title ag
    | none ↦ elim (extract_hook ev.event) [
      | some hook ↦ hook_title hook
      | none ↦ elim (extract_toggle_drift ev.event) [
        | some drift ↦
            template ("AI Guard toggle drift · " ∷ human_tool drift.tool drift.tool_label ∷ [])
        | none ↦ kind_title (elim ev.evidence [ none ↦ none | some e ↦ some (kind_of e) ])
      ]
    ]
  ]

abbrev status_color : TriageStatus → String
status_color open_status = "text-sev-medium border-sev-medium/40 bg-sev-medium/10"
status_color acknowledged = "text-status-degraded border-status-degraded/40 bg-status-degraded/10"
status_color investigating = "text-accent border-accent/40 bg-accent/10"
status_color resolved = "text-status-healthy border-status-healthy/40 bg-status-healthy/10"

pub record Pill : Type 0 where
  pub label : String
  pub class_name : String

unfoldable pub status_pill : TriageStatus → (has_triage : Bool) → Pill
status_pill status has_triage = record {
  label = elim status [ acknowledged ↦ "ack" | other ↦ status_text other ];
  class_name = if has_triage then status_color status else "text-text-subtle border-border-subtle";
}

-- The effect's state: the refs and states of the table, and whether its timer runs.
pub record Flash : Type 0 where
  pub previous_ids : List String
  pub fresh_ids : List String
  pub timer : Bool

abbrev pub no_flash : Flash
no_flash = record { previous_ids = []; fresh_ids = []; timer = false }

-- The effect on new events: the cleanup of the last run stops its timer first. The incoming ids are
-- a set in the source, of which only membership and emptiness are asked.
unfoldable pub on_events : List EventWithTriage → Flash → Flash
on_events events f =
    let incoming = map (λ e. e.event_id) events in
    let new_ones = filter (λ id. not (includes f.previous_ids id)) incoming in
    if ltb 0 (length new_ones) && ltb 0 (length f.previous_ids)
    then record { previous_ids = incoming; fresh_ids = new_ones; timer = true }
    else record { previous_ids = incoming; fresh_ids = f.fresh_ids; timer = false }

-- The timer, 1100 ms after it was set.
unfoldable pub on_timer : Flash → Flash
on_timer f = if f.timer then record f { fresh_ids = []; timer = false } else f
