-- ===== src/Fleet/Cards/Meta.antt =====
-- The cards of a host's metadata, policy and health: web/src/components/Host/HostMetaCard.tsx and
-- PolicyHealthCard.tsx. A card is a list of labelled lines.
use sigil_manager.Prelude.{
  String, Option, none, some, List, [], ◌∷◌, ◌++◌, if◌then◌else◌, string_eq, map, join, template,
  truthy, Number,
}
use sigil_manager.Api.Fleet.{HostMeta, NetInterface, PolicyState, AgentHealth}
use sigil_manager.Fleet.Tables.{relative_age}

pub record Line : Type 0 where
  pub label : String
  pub text : String

abbrev line : String → String → Line
line label text = record { label = label; text = text }

-- ` · a, b` of a list that is there and not empty.
abbrev addresses : Option (List String) → String
addresses none = ""
addresses (some []) = ""
addresses (some (a ∷ as_)) = template (" · " ∷ join ", " (a ∷ as_) ∷ [])

abbrev hardware : Option String → String
hardware none = ""
hardware (some mac) = if truthy mac then template (" · " ∷ mac ∷ []) else ""

unfoldable pub interface_line : NetInterface → String
interface_line i = template (i.name ∷ addresses i.ipv4 ∷ hardware i.mac ∷ [])

abbrev or_dash : Option String → String
or_dash none = "—"
or_dash (some s) = s

abbrev joined_or_dash : Option (List String) → String
joined_or_dash none = "—"
joined_or_dash (some []) = "—"
joined_or_dash (some (s ∷ ss)) = join ", " (s ∷ ss)

abbrev listed : Option (List NetInterface) → List NetInterface
listed none = []
listed (some is) = is

-- A card: the sentence that it is empty, or its lines.
pub data CardView : Type 0 where
  empty : (text : String) → CardView
  card : List Line → (interfaces : List String) → CardView

unfoldable pub host_meta_card : Option HostMeta → CardView
unfolding interface_line
host_meta_card none = empty "No host metadata reported yet."
host_meta_card (some meta) =
    card
      (line "OS" (template (meta.os_name ∷ " " ∷ meta.os_version ∷ []))
        ∷ line "Kernel" meta.kernel_version
        ∷ line "Arch" meta.architecture
        ∷ line "Gateway" (or_dash meta.default_gateway_v4)
        ∷ line "DNS" (joined_or_dash meta.dns_servers)
        ∷ [])
      (map interface_line (listed meta.interfaces))

module _ (distance : String → Option String) where
  -- `ts ? `${relativeAge(ts)} ago` : '—'`
  abbrev ago_or_dash : Option String → String
  ago_or_dash none = "—"
  ago_or_dash (some ts) =
      if truthy ts then template (relative_age distance ts ∷ " ago" ∷ []) else "—"

  unfoldable pub policy_lines : Option PolicyState → List Line
  policy_lines none = line "Policy" "not reported yet" ∷ []
  policy_lines (some policy) =
      line "Policy" (
        template (
          "v"
          ∷ policy.last_applied_policy_version.decimal
          ∷ (if policy.policy_expired_active then " · expired" else "")
          ∷ []))
      ∷ line "Reloaded" (ago_or_dash policy.last_policy_reload_ts)
      ∷ []

  abbrev milliseconds : Option Number → String
  milliseconds none = "—"
  milliseconds (some ms) = template (ms.decimal ∷ " ms" ∷ [])

  unfoldable pub health_lines : Option AgentHealth → List Line
  health_lines none = line "Health" "not reported yet" ∷ []
  health_lines (some health) =
      line "Heartbeat" (ago_or_dash health.last_heartbeat_ts)
      ∷ line "Stalls 24h" health.recent_channel_stalls_24h.decimal
      ∷ line "Watcher 24h" health.recent_watcher_degraded_24h.decimal
      ∷ line "Sender lag 24h" health.recent_sender_lag_critical_24h.decimal
      ∷ line "Hash p99" (milliseconds health.hash_p99_ms_latest)
      ∷ []

  -- `signature_failures` is the printed count of the compliance row, where there is one.
  unfoldable pub policy_health_card :
      Option PolicyState → Option AgentHealth → (signature_failures : Option String) → List Line
  unfolding policy_lines health_lines
  policy_health_card policy health signature_failures =
      policy_lines policy
      ++ ((elim signature_failures [ none ↦ [] | some n ↦ line "Sig fails 24h" n ∷ [] ])
          ++ health_lines health)
