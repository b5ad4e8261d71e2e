-- ===== src/Alerts/Ranges.antt =====
-- The time ranges of web/src/components/AlertsQueue/FilterRow.tsx, the freshness label of
-- web/src/routes/_authed/alerts.tsx and the hint of the empty table in QueueTable.tsx. Time is in
-- milliseconds since 1970; `iso` and `parse` are `toISOString` and `Date.parse`.
pub mod Slop
use sigil_manager.Prelude.{
  ℕ, ◌+◌, ◌-◌, ◌*◌, ◌/◌, String, Bool, true, false, Option, none, some, ◌∷◌, [], if◌then◌else◌, leb,
  ltb, eqb, template,
}

pub data Range : Type 0 where
  all day week : Range

abbrev pub day_ms : ℕ
day_ms = 24 * 60 * 60 * 1000

abbrev pub week_ms : ℕ
week_ms = 7 * 24 * 60 * 60 * 1000

-- The clock is past the first week of 1970, so that the difference is the one of the source.
unfoldable pub range_to_since : (iso : ℕ → String) (now : ℕ) → Range → Option String
range_to_since iso now all = none
range_to_since iso now day = some (iso (now - day_ms))
range_to_since iso now week = some (iso (now - week_ms))

-- A time in the future has a negative age, which is below the bound as 0 is.
unfoldable pub since_to_range : (parse : String → Option ℕ) (now : ℕ) → String → Range
since_to_range parse now since = elim (parse since) [
  | none ↦ all
  | some since_ms ↦ if leb (now - since_ms) (36 * 60 * 60 * 1000) then day else week
]

unfoldable pub current_range : (parse : String → Option ℕ) (now : ℕ) → Option String → Range
unfolding since_to_range
current_range parse now none = all
current_range parse now (some since) = since_to_range parse now since

pub record Freshness : Type 0 where
  pub tone : String
  pub label : String

unfoldable pub freshness :
    (show : ℕ → String) (now last_updated_at : ℕ) (is_fetching is_paused : Bool) → Freshness
freshness show now last_updated_at is_fetching is_paused =
    let age_sec = (now - last_updated_at) / 1000 in
    if eqb last_updated_at 0
    then record { tone = "text-text-subtle"; label = "Connecting…" }
    else record {
      tone =
          if ltb age_sec 30
          then "text-text-muted"
          else if ltb age_sec 60
          then "text-status-degraded"
          else "text-sev-critical";
      label =
          if is_paused
          then "Paused (hover)"
          else if is_fetching
          then "Refreshing…"
          else template ("Updated " ∷ show age_sec ∷ "s ago" ∷ []);
    }

unfoldable pub empty_hint : (filters_active partial_results : Bool) → String
empty_hint filters_active partial_results =
    if partial_results
    then "No matching alerts in loaded results. Load more to continue searching."
    else if filters_active
    then "No alerts match the current filters."
    else "🎉 No open alerts."
