-- ===== src/Display/Status.antt =====
-- Status lines and pills: web/src/lib/compliance.ts, audit.ts, fleet-size.ts, server-status.ts and
-- severity.ts.
pub mod Worst
pub mod Messages
use sigil_manager.Prelude.{
  ℕ, String, Bool, true, false, Option, none, some, List, [], ◌∷◌, if◌then◌else◌, ◌==◌, nat_eq,
  string_eq, template, Number, ℤ, is_positive,
}
use sigil_manager.Api.Client.{
  ErrorClass, service_unavailable, ApiError, Failure, api_error, other_error, is_instance, is_text,
}
use sigil_manager.Api.Fleet.{ComplianceRow, FleetSummary, AuditHead, Nullable}

pub data ComplianceStatus : Type 0 where
  in_sync drift expired failing_signature : ComplianceStatus

unfoldable pub derive_compliance_status : ComplianceRow → ComplianceStatus
derive_compliance_status row =
    if row.policy_expired_active
    then expired
    else if is_positive row.signature_failures_24h
    then failing_signature
    else if is_positive row.version_drift
    then drift
    else in_sync

pub record ComplianceMeta : Type 0 where
  pub label : String
  pub tone : String

abbrev pub compliance_meta : ComplianceStatus → ComplianceMeta
compliance_meta in_sync = record { label = "In sync"; tone = "healthy" }
compliance_meta drift = record { label = "Drift"; tone = "degraded" }
compliance_meta expired = record { label = "Expired"; tone = "down" }
compliance_meta failing_signature = record { label = "Failing signature"; tone = "down" }

unfoldable pub audit_signing_summary : Nullable AuditHead → String
audit_signing_summary Nullable.undefined = "not reported by this server"
audit_signing_summary Nullable.null = "no signed head available"
audit_signing_summary (Nullable.present head) = template (
    "signed head reported · seq " ∷ head.seq.decimal ∷ " · key " ∷ head.pubkey_id
    ∷ " (not verified)" ∷ [])

unfoldable pub active_host_summary : Option FleetSummary → Option String
active_host_summary none = none
active_host_summary (some fleet) =
    let hosts = if fleet.active_host_count.decimal == "1" then "host" else "hosts" in
    let days = if fleet.active_window_days.decimal == "1" then "day" else "days" in
    some (
      template (
        fleet.active_host_count.decimal ∷ " active " ∷ hosts ∷ " · last "
        ∷ fleet.active_window_days.decimal ∷ " " ∷ days ∷ []))

unfoldable pub read_api_error : Failure → String
read_api_error (other_error m) = "Read API unavailable. Check the connection and retry."
read_api_error (api_error e) =
    if is_instance service_unavailable (api_error e)
    then "Rebuilding index (503). Retry shortly."
    else if is_text "upstream_unauthorized" e.code
    then "Read API token rejected. Check the server read token configuration."
    else if is_text "read_api_disabled" e.code
    then "Read API disabled. Configure LODELINE_SERVER_READ_TOKEN on lodeline-server."
    else if e.status == 401
    then "Session unavailable. Sign in again."
    else "Read API unavailable. Check the connection and retry."

unfoldable pub bucket_text_color : String → String
bucket_text_color bucket =
    if bucket == "critical"
    then "text-sev-critical"
    else if bucket == "high"
    then "text-sev-high"
    else if bucket == "medium"
    then "text-sev-medium"
    else if bucket == "low"
    then "text-sev-low"
    else "text-sev-info"
