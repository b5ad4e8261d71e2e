-- ===== src/Api/Fleet/Hosts.antt =====
-- The second half of web/src/api/fleet.ts: risk, compliance and hosts.
use sigil_manager.Prelude.{String, Bool, Option, List, Number, ℤ}
use sigil_manager.Api.Fleet.Events.{AiGuardControl, Scope, ReasonLike, Nullable}

pub record RiskRow : Type 0 where
  pub host_id : String
  pub hostname : Option String
  pub score : Number
  pub bucket : String
  pub top_tool : String
  pub reasons_count : Number
  pub assessed_ts : String
  pub open_alert_count_24h : Number

pub record RiskPage : Type 0 where
  pub rows : List RiskRow
  pub next_cursor : Option String

pub record ComplianceRow : Type 0 where
  pub host_id : String
  pub hostname : Option String
  pub last_applied_policy_version : Number
  pub server_current_policy_version : Number
  pub version_drift : ℤ
  pub policy_expired_active : Bool
  pub last_policy_reload_ts : Option String
  pub signature_failures_24h : ℤ

pub record CompliancePage : Type 0 where
  pub rows : List ComplianceRow
  pub next_cursor : Option String

pub record NetInterface : Type 0 where
  pub name : String
  pub mac : Option String
  pub ipv4 : Option (List String)
  pub ipv6 : Option (List String)

pub record HostMeta : Type 0 where
  pub os_name : String
  pub os_version : String
  pub kernel_version : String
  pub architecture : String
  pub interfaces : Option (List NetInterface)
  pub default_gateway_v4 : Option String
  pub default_gateway_v6 : Option String
  pub dns_servers : Option (List String)

pub record PolicyState : Type 0 where
  pub last_applied_policy_version : Number
  pub policy_expired_active : Bool
  pub last_policy_reload_ts : Option String

pub record AgentHealth : Type 0 where
  pub recent_channel_stalls_24h : Number
  pub recent_watcher_degraded_24h : Number
  pub recent_sender_lag_critical_24h : Number
  pub last_heartbeat_ts : Option String
  pub hash_p99_ms_latest : Option Number
  pub jsonl_above_soft_floor_latest : Option Bool

pub record ToolAiGuard : Type 0 where
  pub controls : Nullable (List AiGuardControl)
  pub score : Number
  pub bucket : String
  pub assessed_ts : String
  pub is_reattestation : Bool
  pub scope : Scope
  pub reasons : Option (List ReasonLike)

pub record ToolRisk : Type 0 where
  pub score : Number
  pub bucket : String
  pub assessed_ts : String

-- A `Record<string, V>` is the list of its entries, in their order.
pub record CurrentRisk : Type 0 where
  pub max_score : Number
  pub max_bucket : String
  pub by_tool : List (String × ToolRisk)

pub record HostSummary : Type 0 where
  pub host_id : String
  pub hostname : Option String
  pub agent_version : String
  pub last_seen_ts : String
  pub status : String
  pub current_risk : Option CurrentRisk
  pub open_event_counts_24h : List (String × Number)

pub record HostDetail : Type 0 where
  pub summary : HostSummary
  pub open summary use *
  pub host_meta : Option HostMeta
  pub policy_state : Option PolicyState
  pub agent_health : Option AgentHealth
  pub ai_guard : Option (List (String × ToolAiGuard))

pub record HostsPage : Type 0 where
  pub hosts : Option (List HostSummary)
  pub next_cursor : Option String
  pub total_estimated : Number
