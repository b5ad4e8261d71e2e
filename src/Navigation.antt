-- ===== src/Navigation.antt =====
-- web/src/components/Layout/TopNav.tsx: the state of the connection pill, and logging out; and the
-- lines of web/src/routes/_authed/settings.tsx. Time is in milliseconds.
pub mod Pill
pub mod SettingsPage
use sigil_manager.Prelude.{
  ℕ, ◌-◌, String, Bool, true, false, Option, none, some, if◌then◌else◌, ◌&&◌, ◌==◌, string_eq, not,
  ltb,
}
use sigil_manager.Api.Client.{Failure, Outcome, service_unavailable, unauthorized, is_instance}
use sigil_manager.Display.Status.{read_api_error}

pub data ConnectionState : Type 0 where
  connected stale disconnected unknown read_error : ConnectionState

-- What the query library shows of a query: `isError` says that `error` is there.
pub record QueryState : Type 0 where
  pub is_pending : Bool
  pub has_data : Bool
  pub error : Option Failure
  pub data_updated_at : ℕ

unfoldable pub connection_state : (now : ℕ) → QueryState → ConnectionState
connection_state now q = if q.is_pending && not q.has_data then unknown else (elim q.error [
  | some f ↦
      if is_instance service_unavailable f
      then stale
      else if is_instance unauthorized f
      then unknown
      else disconnected
  | none ↦ if ltb 30000 (now - q.data_updated_at) then stale else connected
])

-- `state`: the health request and the metadata request together.
unfoldable pub nav_state : (now : ℕ) (healthz meta : QueryState) → ConnectionState
unfolding connection_state
nav_state now healthz meta = elim healthz.error [
  | some f ↦ connection_state now healthz
  | none ↦ elim meta.error [
    | some f ↦ read_error
    | none ↦ if meta.is_pending then unknown else connection_state now healthz
  ]
]

abbrev pub state_label : ConnectionState → String
state_label connected = "Connected"
state_label stale = "Stale"
state_label disconnected = "Disconnected"
state_label unknown = "—"
state_label read_error = "Read API error"

abbrev pub state_color : ConnectionState → String
state_color connected = "bg-status-healthy"
state_color stale = "bg-status-degraded"
state_color disconnected = "bg-status-down"
state_color unknown = "bg-text-subtle"
state_color read_error = "bg-status-down"

-- What logging out leaves, whether its request succeeds or not.
pub record LoggedOut : Type 0 where
  pub cache_cleared : Bool
  pub to : String

unfoldable pub on_settled : Outcome → LoggedOut
on_settled o = record { cache_cleared = true; to = "/login" }

-- The two lines of the settings page; `health_status` is `health.data?.status`.
unfoldable pub liveness_line : QueryState → (health_status : Option String) → String
liveness_line health health_status = elim health.error [
  | some f ↦ "Unreachable"
  | none ↦ if health.is_pending then "Checking…" else (elim health_status [
    | none ↦ "Unexpected health status"
    | some s ↦ if s == "ok" then "Reachable" else "Unexpected health status"
  ])
]

unfoldable pub read_api_line : QueryState → String
read_api_line meta = elim meta.error [
  | some f ↦ read_api_error f
  | none ↦ if meta.is_pending then "Checking authenticated access…" else "Connected (authenticated)"
]
