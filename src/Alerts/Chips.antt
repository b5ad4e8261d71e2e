-- ===== src/Alerts/Chips.antt =====
-- The filter row, web/src/components/AlertsQueue/FilterRow.tsx: its chips and its search field, as
-- the changes of the URL's search that they make.
use sigil_manager.Prelude.{
  ℕ, String, Bool, true, false, Option, some, List, [], ◌∷◌, ◌++◌, map, includes,
}
use sigil_manager.Api.Triage.{
  TriageStatus, open_status, acknowledged, investigating, resolved, status_eq,
}
use sigil_manager.Api.Fleet.{Bucket, low, medium, high, critical}
use sigil_manager.Alerts.Filter.{AlertFilter}
use sigil_manager.Alerts.Search.{SearchChange, no_change, assign, toggle_status, bucket_beq}
use sigil_manager.Alerts.Ranges.{Range, all, day, week, range_to_since, current_range}

-- A chip: its text, whether it is drawn as chosen, and what a click changes.
pub record Chip : Type 0 where
  pub label : String
  pub active : Bool
  pub change : SearchChange

abbrev pub buckets : List (Bucket × String)
buckets = (low, "All") ∷ (medium, "Medium+") ∷ (high, "High+") ∷ (critical, "Critical") ∷ []

abbrev pub statuses : List (TriageStatus × String)
statuses =
    (open_status, "Open")
    ∷ (acknowledged, "Ack")
    ∷ (investigating, "Investigating")
    ∷ (resolved, "Resolved")
    ∷ []

abbrev pub time_ranges : List (Range × String)
time_ranges = (all, "All") ∷ (day, "24h") ∷ (week, "7d") ∷ []

abbrev range_beq : Range → Range → Bool
range_beq all all = true
range_beq day day = true
range_beq week week = true
range_beq _ _ = false

unfoldable pub bucket_chip : AlertFilter → Bucket × String → Chip
bucket_chip f (b, label) = record {
  label = label;
  active = bucket_beq f.min_bucket b;
  change = record no_change { min_bucket = assign (some b) };
}

unfoldable pub status_chip : AlertFilter → TriageStatus × String → Chip
status_chip f (s, label) = record {
  label = label;
  active = includes f.triage_statuses s;
  change = record no_change { triage_statuses = assign (some (toggle_status s f.triage_statuses)) };
}

module _ (iso : ℕ → String) (parse : String → Option ℕ) (now : ℕ) where
  unfoldable pub range_chip : AlertFilter → Range × String → Chip
  range_chip f (r, label) = record {
    label = label;
    active = range_beq (current_range parse now f.since) r;
    change = record no_change { since = assign (range_to_since iso now r) };
  }

  -- The chips in their order.
  unfoldable pub chips : AlertFilter → List Chip
  unfolding bucket_chip status_chip range_chip
  chips f =
      map (bucket_chip f) buckets ++ map (status_chip f) statuses ++ map (range_chip f) time_ranges

-- Typing into the search field.
unfoldable pub on_query_change : String → SearchChange
on_query_change text = record no_change { query = assign (some text) }
