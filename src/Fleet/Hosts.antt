-- ===== src/Fleet/Hosts.antt =====
-- The risk and device pages: web/src/hooks/useFleetRisk.ts, web/src/routes/_authed/fleet/risk.tsx
-- and devices.tsx, and the status line of web/src/routes/_authed/hosts/$hostId.tsx.
pub mod Devices
pub mod Buckets
use Prim.Native.Char.{code}
use sigil_manager.Prelude.{
  String, Option, none, some, List, [], ◌∷◌, if◌then◌else◌, not, eqb, any, ◌==◌, string_eq, truthy,
  trim, contains, chars, of_chars, Json, Fields, lookup, filter, includes,
}
use sigil_manager.Api.Fleet.{Bucket, low, medium, high, critical, HostSummary}
use sigil_manager.Api.Query.{RiskParams, HostsParams, host_id}
use sigil_manager.Fleet.Events.{some_if_any, url_list}

pub record RiskSearch : Type 0 where
  pub min_bucket : Option Bucket
  pub tool : Option (List String)

unfoldable pub risk_bucket : Json → Option Bucket
risk_bucket (Json.string s) =
    if s == "low"
    then some low
    else if s == "medium"
    then some medium
    else if s == "high"
    then some high
    else if s == "critical"
    then some critical
    else none
risk_bucket _ = none

unfoldable pub validate_risk_search : Fields → RiskSearch
unfolding risk_bucket
validate_risk_search raw = record {
  min_bucket = risk_bucket (lookup "minBucket" raw);
  tool = some_if_any (url_list (lookup "tool" raw));
}

pub record RiskFilter : Type 0 where
  pub min_bucket : Bucket
  pub tool : List String

abbrev pub default_risk_filter : RiskFilter
default_risk_filter = record { min_bucket = low; tool = [] }

unfoldable pub risk_filter : RiskSearch → RiskFilter
risk_filter search = record {
  min_bucket = elim search.min_bucket [ none ↦ default_risk_filter.min_bucket | some b ↦ b ];
  tool = elim search.tool [ none ↦ default_risk_filter.tool | some ts ↦ ts ];
}

unfoldable pub risk_params : RiskFilter → RiskParams
risk_params f = record {
  cursor = none;
  limit = some (record { decimal = "100" });
  tool = some_if_any f.tool;
  min_bucket = some f.min_bucket;
}

abbrev pub host_statuses : List String
host_statuses = "healthy" ∷ "stale" ∷ "disconnected" ∷ []

-- The search of the devices page.
unfoldable pub valid_host_status : Json → Option String
valid_host_status (Json.string s) = if includes host_statuses s then some s else none
valid_host_status _ = none

unfoldable pub devices_params : Option String → HostsParams
devices_params status = record {
  cursor = none;
  limit = some (record { decimal = "100" });
  status = status;
  sort = some host_id;
}

-- `version.trim().replace(/^v/, '')`
unfoldable pub normalize_version : String → String
normalize_version version = elim (chars (trim version)) [
  | [] ↦ ""
  | c ∷ cs ↦ if eqb (code c) b'v' then of_chars cs else trim version
]

unfoldable pub target_comparison : (agent_version target_version : String) → String
unfolding normalize_version
target_comparison agent_version target_version =
    if not (truthy agent_version)
    then "Unknown"
    else if normalize_version agent_version == target_version
    then "Matches target"
    else "Differs from target"

module _ (lower : String → String) where
  -- The loaded devices that the search box leaves.
  unfoldable pub device_rows : (search : String) → List HostSummary → List HostSummary
  device_rows search hosts =
      let needle = lower (trim search) in
      filter
        (λ host.
          any (λ value. contains (lower value) needle)
            (host.host_id
              ∷ (elim host.hostname [ none ↦ "" | some name ↦ name ])
              ∷ host.agent_version
              ∷ []))
        hosts
