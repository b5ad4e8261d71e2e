-- ===== src/Fleet/Hosts/Devices.antt =====
-- The table of the devices page, web/src/routes/_authed/fleet/devices.tsx.
pub mod Versions
use sigil_manager.Prelude.{
  String, Bool, true, false, Option, none, some, List, [], ◌∷◌, ◌++◌, ◌||◌, if◌then◌else◌, ◌==◌,
  string_eq, map, template, truthy, Number, Json, Fields, lookup,
}
use sigil_manager.Api.Fleet.{HostSummary, CurrentRisk}
use sigil_manager.Fleet.Hosts.{normalize_version, target_comparison, device_rows, valid_host_status}
use sigil_manager.Fleet.Tables.{relative_age}

-- `validateSearch`
unfoldable pub validate_device_search : Fields → Option String
validate_device_search raw = valid_host_status (lookup "status" raw)

-- The choice of a status; the empty one takes it out of the search.
unfoldable pub on_status_change : (value : String) → Option String
on_status_change value = if truthy value then some value else none

unfoldable pub device_headers : (target : String) → List String
unfolding normalize_version
device_headers target =
    ("Device / Host ID" ∷ "Connection" ∷ "Last seen" ∷ "Reported agent" ∷ [])
    ++ ((if truthy (normalize_version target) then "Target comparison" ∷ [] else []) ++ "Risk" ∷ [])

-- The paragraph in place of an empty table.
unfoldable pub devices_empty : (has_error any_loaded has_more : Bool) → String
devices_empty has_error any_loaded has_more =
    if has_error
    then "Device data is unavailable."
    else if any_loaded || has_more
    then "No matching devices in loaded results."
    else "No observed devices for this status."

abbrev or_blank : Option String → String
or_blank none = ""
or_blank (some s) = s

abbrev or_text : String → String → String
or_text text s = if truthy s then s else text

module _ (distance : String → Option String) (to_fixed : Number → String) where
  abbrev risk_cell : Option CurrentRisk → String
  risk_cell none = "Not assessed"
  risk_cell (some r) = template (r.max_bucket ∷ " · " ∷ to_fixed r.max_score ∷ [])

  unfoldable pub device_cells : (target : String) → HostSummary → List String
  unfolding normalize_version target_comparison relative_age
  device_cells target host =
      (or_text "Unnamed device" (or_blank host.hostname)
        ∷ host.status
        ∷ template (relative_age distance host.last_seen_ts ∷ " ago" ∷ [])
        ∷ or_text "Not reported" host.agent_version
        ∷ [])
      ++ ((if truthy (normalize_version target)
            then target_comparison host.agent_version (normalize_version target) ∷ []
            else [])
          ++ risk_cell host.current_risk ∷ [])
