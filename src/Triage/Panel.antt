-- ===== src/Triage/Panel.antt =====
-- The body of the slide-over, in web/src/components/AlertsQueue/SlideOver.tsx: what it shows of an
-- alert and of its triage, and which buttons it offers. `upper` is `toUpperCase`, `to_fixed` prints
-- a score with one digit, and `distance` says how long ago a time was, or throws, which is `none`.
pub mod Offers
pub mod Sending
pub mod Assignee
use sigil_manager.Prelude.{
  ℕ, String, Bool, true, false, Option, none, some, List, [], ◌∷◌, ◌++◌, ◌||◌, if◌then◌else◌, not,
  ltb, length, map, ◌==◌, string_eq, truthy, trim, template, Number,
}
use sigil_manager.Api.Client.{Failure, message_of}
use sigil_manager.Api.Triage.{
  TriageStatus, open_status, acknowledged, investigating, resolved, status_text, status_beq,
  TriageNote, TriageLogEntry, TriageDetail,
}
use sigil_manager.Api.Fleet.{
  EventWithTriage, Event, Evidence, kind_of, AiGuardEvidence, HookEvidence, ToggleDriftEvidence,
  extract_ai_guard, extract_hook, extract_toggle_drift, ReasonLike, Scope,
}
use sigil_manager.Display.Labels.{human_tool, human_kind, hook_title, scope_label}
use sigil_manager.Triage.Facts.{
  Fact, hook_facts, toggle_drift_facts, severity_label, mutation_error_text,
}

-- `triage.status ?? 'open'`
abbrev pub shown_status : Option TriageStatus → TriageStatus
shown_status none = open_status
shown_status (some s) = s

-- `relativeOrEmpty`
unfoldable pub relative_or_empty : (distance : String → Option String) → String → String
relative_or_empty distance ts = elim (distance ts) [ none ↦ "" | some age ↦ age ]

module _ (upper : String → String) where
  unfoldable pub panel_title : EventWithTriage → String
  panel_title ev = elim (extract_ai_guard ev.event) [
    | some ag ↦ template ("AI Guard risk · " ∷ human_tool ag.tool ag.tool_label ∷ [])
    | none ↦ elim (extract_hook ev.event) [
      | some hook ↦ hook_title hook
      | none ↦ elim (extract_toggle_drift ev.event) [
        | some drift ↦
            template ("AI Guard toggle drift · " ∷ human_tool drift.tool drift.tool_label ∷ [])
        | none ↦ human_kind upper (elim ev.evidence [ none ↦ "unknown" | some e ↦ kind_of e ])
      ]
    ]
  ]

-- `ag?.bucket ?? severityLabel(event.severity)`
unfoldable pub panel_bucket : EventWithTriage → String
panel_bucket ev = elim (extract_ai_guard ev.event) [
  | some ag ↦ ag.bucket
  | none ↦ severity_label ev.severity
]

pub data BadgeTone : Type 0 where
  severity status muted : BadgeTone

pub record Badge : Type 0 where
  pub tone : BadgeTone
  pub text : String

-- `ag?.scope?.kind`: every scope of the wire has a kind that is not empty.
unfoldable pub badges : EventWithTriage → TriageStatus → List Badge
badges ev current =
    (record { tone = severity; text = panel_bucket ev }
      ∷ record { tone = status; text = status_text current }
      ∷ [])
    ++ (elim (extract_ai_guard ev.event) [
      | none ↦ []
      | some ag ↦ record { tone = muted; text = scope_label (some ag.scope) } ∷ []
    ])

unfoldable pub badge_class : BadgeTone → String
badge_class severity = "text-sev-critical border-sev-critical/40 bg-sev-critical/10"
badge_class status = "text-accent border-accent/40 bg-accent/10"
badge_class muted = "text-text-muted border-border bg-bg-elevated"

-- The grid of facts, and the reasons that stand as its last entry, where there are any.
pub record FactGrid : Type 0 where
  pub facts : List Fact
  pub reasons : List ReasonLike

abbrev no_facts : List Fact
no_facts = []

module _ (to_fixed : Number → String) where
  unfoldable pub risk_facts : AiGuardEvidence → List Fact
  risk_facts ag =
      ("Tool", human_tool ag.tool ag.tool_label)
      ∷ ("Score", template (to_fixed ag.score ∷ " / 10" ∷ []))
      ∷ ("Bucket", ag.bucket)
      ∷ ("Reattested", if ag.is_reattestation then "yes" else "no")
      ∷ []

module _ (upper : String → String) (to_fixed : Number → String)
    (distance : String → Option String) where
  unfoldable pub fact_grid : EventWithTriage → FactGrid
  fact_grid ev = record {
    facts =
        (("Host", ev.host_id) ∷ [])
        ++ (elim (extract_ai_guard ev.event) [ none ↦ no_facts | some ag ↦ risk_facts to_fixed ag ])
        ++ (elim (extract_hook ev.event) [
          | none ↦ no_facts
          | some hook ↦ hook_facts upper (relative_or_empty distance) hook
        ])
        ++ (elim (extract_toggle_drift ev.event) [
          | none ↦ no_facts
          | some drift ↦ toggle_drift_facts upper (relative_or_empty distance) drift
        ])
        ++ (("Time", template (relative_or_empty distance ev.ts ∷ " ago" ∷ []))
            ∷ ("Severity", ev.severity)
            ∷ ("Agent", template ("v" ∷ ev.agent_version ∷ []))
            ∷ []);
    reasons = elim (extract_ai_guard ev.event) [ none ↦ [] | some ag ↦ ag.reasons ];
  }

-- One of the buttons that set a status.
pub record ActionButton : Type 0 where
  pub label : String
  pub active : Bool
  pub disabled : Bool
  pub sets : TriageStatus

-- The row of actions; `is_pending` says that a write of the row is under way.
unfoldable pub action_buttons : (current : TriageStatus) (is_pending : Bool) → List ActionButton
action_buttons current is_pending =
    record {
      label = "Acknowledge";
      active = status_beq current acknowledged;
      disabled = is_pending;
      sets = acknowledged;
    }
    ∷ record {
      label = "Investigating";
      active = status_beq current investigating;
      disabled = is_pending;
      sets = investigating;
    }
    ∷ record {
      label = "Resolve";
      active = status_beq current resolved;
      disabled = is_pending;
      sets = resolved;
    }
    ∷ record {
      label = "Reopen";
      active = false;
      disabled = is_pending || status_beq current open_status;
      sets = open_status;
    }
    ∷ []

-- The line below the actions when a write of the row failed.
unfoldable pub save_error : Option Failure → Option String
save_error none = none
save_error (some e) =
    some
      (template ("Could not save the change — " ∷ mutation_error_text (some (message_of e)) ∷ []))

-- The line below the note field when a note failed.
unfoldable pub note_error : Option Failure → Option String
note_error none = none
note_error (some e) =
    some (template ("Could not add the note — " ∷ mutation_error_text (some (message_of e)) ∷ []))

pub record NoteLine : Type 0 where
  pub author : String
  pub age : String
  pub body : String

pub record HistoryLine : Type 0 where
  pub actor : String
  pub change : String
  pub age : String

module _ (distance : String → Option String) where
  abbrev ago : String → String
  ago ts = template (relative_or_empty distance ts ∷ " ago" ∷ [])

  unfoldable pub note_lines : {E : Type 0} → Option (TriageDetail E) → List NoteLine
  note_lines none = []
  note_lines (some d) =
      map (λ n. record { author = n.author; age = ago n.created_at; body = n.body }) d.notes

  -- In a template literal a missing status is the text "null".
  abbrev printed : Option TriageStatus → String
  printed none = "null"
  printed (some s) = status_text s

  abbrev change_of : TriageLogEntry → String
  change_of entry = elim entry.from_status [
    | none ↦ template ("opened (" ∷ printed entry.to_status ∷ ")" ∷ [])
    | some from ↦ template (status_text from ∷ " → " ∷ printed entry.to_status ∷ [])
  ]

  unfoldable pub history_lines : {E : Type 0} → Option (TriageDetail E) → List HistoryLine
  history_lines none = []
  history_lines (some d) =
      map (λ e. record { actor = e.actor; change = change_of e; age = ago e.at }) d.log

-- `triage.data ? (count) : nothing`, beside the heading of the notes.
unfoldable pub note_count : {E : Type 0} → (show : ℕ → String) → Option (TriageDetail E) → String
note_count show none = ""
note_count show (some d) = template ("(" ∷ show (length d.notes) ∷ ")" ∷ [])
