-- ===== src/Navigation/SettingsPage.antt =====
-- The settings page, web/src/routes/_authed/settings.tsx: its sections as labelled lines. `iso`
-- prints a time.
use sigil_manager.Prelude.{
  ℕ, String, Bool, true, false, Option, none, some, List, [], ◌∷◌, if◌then◌else◌, ◌==◌, string_eq,
  template,
}
use sigil_manager.Api.Fleet.{MetaResponse, FleetSummary}
use sigil_manager.Display.Status.{audit_signing_summary}
use sigil_manager.Navigation.{QueryState, liveness_line, read_api_line}

pub record Row : Type 0 where
  pub label : String
  pub text : String

pub record Section : Type 0 where
  pub title : String
  pub rows : List Row

abbrev row : String → String → Row
row label text = record { label = label; text = text }

-- The metadata query, and the metadata that it has.
pub record MetaState : Type 0 where
  pub query : QueryState
  pub loaded : Option MetaResponse

abbrev is_error : QueryState → Bool
is_error q = elim q.error [ none ↦ false | some f ↦ true ]

-- `meta.isError ? `${title} (cached)` : title`
unfoldable pub section_title : MetaState → String → String
section_title meta title =
    if is_error meta.query then template (title ∷ " (cached)" ∷ []) else title

unfoldable pub server_section :
    (health : QueryState) (health_status : Option String) → MetaState → Section
server_section health health_status meta = record {
  title = "lodeline-server";
  rows =
      row "Liveness" (liveness_line health health_status)
      ∷ row "Read API" (read_api_line meta.query)
      ∷ [];
}

unfoldable pub retry_text : (busy : Bool) → String
retry_text busy = if busy then "Checking connection…" else "Retry connection"

unfoldable pub fleet_rows : Option FleetSummary → List Row
fleet_rows none = row "Active hosts" "Not reported by this server" ∷ []
fleet_rows (some fleet) =
    row "Active hosts" fleet.active_host_count.decimal
    ∷ row "Active window" (
        template (
          fleet.active_window_days.decimal
          ∷ " "
          ∷ (if fleet.active_window_days.decimal == "1" then "day" else "days")
          ∷ []))
    ∷ []

-- What stands below the button: a status where there is no metadata, or else the sections of the
-- metadata, below a warning where they may be stale.
pub record Below : Type 0 where
  pub status : Option String
  pub sections : List Section

module _ (iso : ℕ → String) where
  abbrev cached_note : MetaState → Option String
  cached_note meta =
      if is_error meta.query
      then some (
          template (
            "Cached metadata — last successful fetch "
            ∷ iso meta.query.data_updated_at
            ∷ ". These values may be stale."
            ∷ []))
      else none

  unfoldable pub below : MetaState → Below
  unfolding section_title fleet_rows
  below meta = elim meta.loaded [
    | none ↦ record {
      status = some (
          if meta.query.is_pending
          then "Loading server metadata…"
          else "Metadata unavailable. Fleet size and audit status are unknown.");
      sections = [];
    }
    | some m ↦ record {
      status = cached_note meta;
      sections =
          record {
            title = section_title meta "Server metadata";
            rows =
                row "Server version" m.server_version
                ∷ row "Schema version" (template ("v" ∷ m.schema_version.decimal ∷ []))
                ∷ [];
          }
          ∷ record { title = section_title meta "Fleet"; rows = fleet_rows m.fleet }
          ∷ record {
            title = section_title meta "Audit";
            rows = row "Log signing" (audit_signing_summary m.audit_head) ∷ [];
          }
          ∷ [];
    }
  ]

abbrev pub auth_section : Section
auth_section = record {
  title = "Auth";
  rows = row "Users" "single admin user, configured via environment (v1)" ∷ [];
}

-- A click on the button asks for both, unless it is disabled.
unfoldable pub on_retry : (busy : Bool) → List String
on_retry busy = if busy then [] else "meta" ∷ "healthz" ∷ []
