-- ===== src/Fleet/Cards.antt =====
-- The cards of a host: web/src/components/Host/AiGuardByTool.tsx and HostHeader.tsx, and the tool
-- column of web/src/components/Fleet/EventsTable.tsx. A `Record` is the list of its entries.
pub mod Tools
pub mod Meta
pub mod ToolCard
use sigil_manager.Prelude.{
  ℕ, String, Bool, true, false, Option, none, some, List, [], ◌∷◌, if◌then◌else◌, not, ◌==◌,
  string_eq, filter, map, join, template, split, Number,
}
use sigil_manager.Prelude.Sort.{sort}
use sigil_manager.Api.Fleet.{
  Event, EventWithTriage, ToolAiGuard, HookEvidence, hook_invocation, hook_decision,
  hook_config_drift, possible_hook_activity_silent, extract_ai_guard, extract_hook,
  extract_toggle_drift,
}
use sigil_manager.Display.Labels.{human_tool, hook_agent, hook_label}

abbrev pub is_quiet : String × ToolAiGuard → Bool
is_quiet tool = tool.1.bucket == "low"

-- `below m n` says that the number `n - m` is positive.
module _ (below : Number → Number → Bool) where
  -- The tools with a card: above the low bucket, the highest score first.
  unfoldable pub risky_tools : List (String × ToolAiGuard) → List (String × ToolAiGuard)
  risky_tools tools =
      sort (λ a b. below a.1.score b.1.score) (filter (λ tool. not (is_quiet tool)) tools)

unfoldable pub quiet_tools : List (String × ToolAiGuard) → List (String × ToolAiGuard)
quiet_tools tools = filter is_quiet tools

-- The summary of the quiet tools.
unfoldable pub quiet_line : (show : ℕ → String) (count : ℕ) → List (String × ToolAiGuard) → String
quiet_line show count tools = template (
    "Low ("
    ∷ show count
    ∷ "): "
    ∷ join " · " (map (λ tool. human_tool tool.0 none) (quiet_tools tools))
    ∷ [])

unfoldable pub bucket_border : String → String
bucket_border bucket =
    if bucket == "critical"
    then "border-l-2 border-l-sev-critical"
    else if bucket == "high"
    then "border-l-2 border-l-sev-high"
    else if bucket == "medium"
    then "border-l-2 border-l-sev-medium"
    else ""

unfoldable pub status_tone : String → String
status_tone status =
    if status == "healthy"
    then "healthy"
    else if status == "stale"
    then "degraded"
    else if status == "disconnected"
    then "down"
    else "subtle"

-- The tool that a row of the events table names.
unfoldable pub tool_cell : EventWithTriage → String
tool_cell ev = elim (extract_ai_guard ev.event) [
  | some ag ↦ human_tool ag.tool ag.tool_label
  | none ↦ elim (extract_hook ev.event) [
    | some hook ↦ human_tool (hook_agent hook) (hook_label hook)
    | none ↦ elim (extract_toggle_drift ev.event) [
      | some drift ↦ human_tool drift.tool drift.tool_label
      | none ↦ "—"
    ]
  ]
]
