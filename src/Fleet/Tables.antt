-- ===== src/Fleet/Tables.antt =====
-- The tables of the fleet pages, as the texts of their cells: web/src/components/Fleet/RiskTable.tsx,
-- ComplianceTable.tsx and EventsTable.tsx, with web/src/components/CompliancePill.tsx and
-- web/src/lib/time.ts. `distance` says how long ago a time was, or throws, which is `none`;
-- `to_fixed` prints a score with one digit, and `upper` is `toUpperCase`.
use sigil_manager.Prelude.{
  ℕ, String, Bool, true, false, Option, none, some, List, [], ◌∷◌, if◌then◌else◌, ◌==◌, string_eq,
  map, split, template, Number, ℤ, is_positive,
}
use sigil_manager.Api.Fleet.{RiskRow, ComplianceRow, EventWithTriage, kind_of}
use sigil_manager.Display.Labels.{human_tool, human_kind}
use sigil_manager.Display.Status.{ComplianceStatus, derive_compliance_status, compliance_meta}
use sigil_manager.Fleet.Cards.{tool_cell}

-- A table waits for its rows, says that it has none, or shows them.
pub data TableView (A : Type 0) : Type 0 where
  skeleton : TableView A
  empty : (text : String) → TableView A
  lines : List A → TableView A

abbrev table_of :
    {A B : Type 0} → (text : String) (cells : A → B) (is_pending : Bool) → List A → TableView B
table_of text cells true rows = skeleton
table_of text cells false [] = empty text
table_of text cells false (row ∷ rows) = lines (map cells (row ∷ rows))

-- `relativeAge`
unfoldable pub relative_age : (distance : String → Option String) → String → String
relative_age distance ts = elim (distance ts) [ none ↦ "—" | some age ↦ age ]

-- `hostname ?? host_id.split('-')[0]`
unfoldable pub host_cell : (hostname : Option String) (host_id : String) → String
host_cell (some name) host_id = name
host_cell none host_id = elim (split b'-' host_id) [ [] ↦ "" | s ∷ ss ↦ s ]

unfoldable pub bucket_bar_color : String → String
bucket_bar_color bucket =
    if bucket == "critical"
    then "bg-sev-critical"
    else if bucket == "high"
    then "bg-sev-high"
    else if bucket == "medium"
    then "bg-sev-medium"
    else if bucket == "low"
    then "bg-sev-low"
    else "bg-sev-info"

pub record RiskCells : Type 0 where
  pub bar_color : String
  pub bucket : String
  pub host : String
  pub score : String
  pub top_tool : String
  pub reasons : String
  pub alerts : String

module _ (to_fixed : Number → String) where
  unfoldable pub risk_cells : RiskRow → RiskCells
  unfolding bucket_bar_color host_cell
  risk_cells row = record {
    bar_color = bucket_bar_color row.bucket;
    bucket = row.bucket;
    host = host_cell row.hostname row.host_id;
    score = to_fixed row.score;
    top_tool = human_tool row.top_tool none;
    reasons = row.reasons_count.decimal;
    alerts = row.open_alert_count_24h.decimal;
  }

  unfoldable pub risk_table : (is_pending : Bool) → List RiskRow → TableView RiskCells
  unfolding risk_cells
  risk_table = table_of "No hosts above the selected risk level." risk_cells

pub record CompliancePill : Type 0 where
  pub label : String
  pub tone_class : String

abbrev tone_class_of : String → String
tone_class_of tone =
    if tone == "healthy"
    then "text-status-healthy border-status-healthy/40 bg-status-healthy/10"
    else if tone == "degraded"
    then "text-status-degraded border-status-degraded/40 bg-status-degraded/10"
    else "text-status-down border-status-down/40 bg-status-down/10"

unfoldable pub compliance_pill : ComplianceStatus → CompliancePill
compliance_pill status = record {
  label = (compliance_meta status).label;
  tone_class = tone_class_of (compliance_meta status).tone;
}

-- A whole number, printed; `show` prints a natural one.
abbrev show_integer : (show : ℕ → String) → ℤ → String
show_integer show (ℤ.pos n) = show n
show_integer show (ℤ.negsuc n) = template ("-" ∷ show (ℕ.suc n) ∷ [])

pub record ComplianceCells : Type 0 where
  pub host : String
  pub status : CompliancePill
  pub policy_version : String
  pub signature_failures : String
  pub last_reload : String

module _ (distance : String → Option String) where
  unfoldable pub reload_cell : Option String → String
  unfolding relative_age
  reload_cell none = "—"
  reload_cell (some ts) =
      if ts == ""
      then "—"
      else if relative_age distance ts == "—"
      then "—"
      else template (relative_age distance ts ∷ " ago" ∷ [])

  module _ (show : ℕ → String) where
    unfoldable pub compliance_cells : ComplianceRow → ComplianceCells
    unfolding reload_cell host_cell compliance_pill
    compliance_cells row = record {
      host = host_cell row.hostname row.host_id;
      status = compliance_pill (derive_compliance_status row);
      policy_version =
          if is_positive row.version_drift
          then template (
              row.last_applied_policy_version.decimal ∷ " → "
              ∷ row.server_current_policy_version.decimal ∷ [])
          else row.last_applied_policy_version.decimal;
      signature_failures = show_integer show row.signature_failures_24h;
      last_reload = reload_cell row.last_policy_reload_ts;
    }

    unfoldable pub compliance_table :
        (is_pending : Bool) → List ComplianceRow → TableView ComplianceCells
    unfolding compliance_cells
    compliance_table = table_of "No hosts reporting policy state yet." compliance_cells

pub record EventCells : Type 0 where
  pub severity : String
  pub age : String
  pub kind : String
  pub inspect : String
  pub host : String
  pub tool : String

module _ (upper : String → String) (distance : String → Option String) where
  -- Only an explicit "info" is informational.
  unfoldable pub event_cells : EventWithTriage → EventCells
  unfolding relative_age host_cell
  event_cells ev =
      let kind = human_kind upper (elim ev.evidence [ none ↦ "" | some e ↦ kind_of e ]) in
      record {
        severity = if ev.severity == "info" then "Info" else "Warning";
        age = relative_age distance ev.ts;
        kind = kind;
        inspect = template ("Inspect " ∷ kind ∷ " " ∷ ev.event_id ∷ []);
        host = host_cell none ev.host_id;
        tool = tool_cell ev;
      }

  unfoldable pub events_table : (is_pending : Bool) → List EventWithTriage → TableView EventCells
  unfolding event_cells
  events_table = table_of "No events in the selected range." event_cells
