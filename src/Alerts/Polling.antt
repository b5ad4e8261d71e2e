-- ===== src/Alerts/Polling.antt =====
-- The state of `useAlerts` in web/src/hooks/useAlerts.ts: what it asks the server for, and when it
-- stops asking because the pointer is over a row.
pub mod Pausing
use sigil_manager.Prelude.{
  ℕ, zero, suc, ◌+◌, ◌-◌, String, Bool, true, false, Option, none, some, List, [], ◌∷◌, ◌++◌,
  if◌then◌else◌, ◌==◌, nat_eq, string_eq, includes, Number,
}
use sigil_manager.Api.Fleet.{MetaResponse}
use sigil_manager.Api.Query.{EventsParams}
use sigil_manager.Alerts.Filter.{AlertFilter}

abbrev pub poll_interval_ms : ℕ
poll_interval_ms = 5000

pub record Hover : Type 0 where
  pub depth : ℕ
  pub paused : Bool

abbrev pub rest : Hover
rest = record { depth = 0; paused = false }

unfoldable pub on_row_hover_enter : Hover → Hover
on_row_hover_enter h = record { depth = h.depth + 1; paused = true }

-- `Math.max(0, depth - 1)` is the truncated difference.
unfoldable pub on_row_hover_leave : Hover → Hover
on_row_hover_leave h =
    let depth = h.depth - 1 in
    record { depth = depth; paused = if depth == 0 then false else h.paused }

-- `paused ? false : POLL_INTERVAL_MS`
unfoldable pub refetch_interval : Hover → Option ℕ
refetch_interval h = if h.paused then none else some poll_interval_ms

-- `Array.from(new Set(xs))`: each value at its first place.
unfoldable pub unique : List String → List String → List String
unique seen [] = []
unique seen (x ∷ xs) =
    let skip = unique seen xs in
    let keep = x ∷ unique (x ∷ seen) xs in if includes seen x then skip else keep

abbrev or_empty : Option (List String) → List String
or_empty none = []
or_empty (some xs) = xs

unfoldable pub evidence_kinds : Option MetaResponse → List String
unfolding unique
evidence_kinds none = "ai_guard_risk_assessed" ∷ []
evidence_kinds (some meta) = elim meta.alerts_definition_default [
  | none ↦ "ai_guard_risk_assessed" ∷ []
  | some m ↦ unique [] (or_empty m.evidence_kinds ++ or_empty m.additional_kinds)
]

unfoldable pub alert_params : Option MetaResponse → AlertFilter → EventsParams
unfolding evidence_kinds
alert_params meta f = record {
  cursor = none;
  limit = some (record { decimal = "100" });
  host_id = none;
  since = f.since;
  until = none;
  evidence_kind = some (evidence_kinds meta);
  severity = none;
  source = none;
  min_ai_guard_bucket = some f.min_bucket;
}
