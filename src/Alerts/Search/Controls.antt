-- ===== src/Alerts/Search/Controls.antt =====
-- The controls of the filter row against what they promise.
use sigil_manager.Prelude.{
  true, false, none, List, [], ◌∷◌, ◌≡◌, ◌↔◌, refl, arith, if◌then◌else◌, not, ◌==◌, string_eq,
  eq_iff, Bool-cases, inl, inr, includes, includes-append, filter, length, nat_eq,
}
use sigil_manager.Api.Triage.{TriageStatus, status_beq, status_eq, status_beq_iff}
use sigil_manager.Api.Fleet.{high}
use sigil_manager.Alerts.Filter.{AlertFilter, default_filter}
use sigil_manager.Alerts.Search.{
  AlertsSearch, filter_of, is_filter_active, on_reset_filters, set_search, toggle_status,
}

no_statuses : (ss : List TriageStatus) → (length ss == 0) ≡ true → ss ≡ []
no_statuses [] h = refl
no_statuses (s ∷ ss) h = absurd (ground arith)

default_of : (f : AlertFilter) → is_filter_active f ≡ false → f ≡ default_filter
unfolding is_filter_active
default_of f h =
    let bucket : f.min_bucket ≡ high = ground arith in
    let statuses : f.triage_statuses ≡ [] = no_statuses f.triage_statuses (ground arith) in
    let since : f.since ≡ none = ground arith in
    let query : f.query ≡ "" = ground (arith, eq_iff f.query "") in
    λ i. record {
      min_bucket = bucket i;
      triage_statuses = statuses i;
      since = since i;
      query = query i;
    }

-- "Reset filters" is offered exactly while the filter differs from the default one.
pub is_filter_active_iff : (f : AlertFilter) → (is_filter_active f ≡ false) ↔ (f ≡ default_filter)
unfolding is_filter_active
is_filter_active_iff f = (default_of f, λ e. rw e)

-- Resetting restores the default filter, and leaves the open alert and the order as they are.
pub filter_of-on_reset_filters :
    (s : AlertsSearch)
    → (filter_of (on_reset_filters s) ≡ default_filter)
      × (is_filter_active (filter_of (on_reset_filters s)) ≡ false)
      × ((on_reset_filters s).alert ≡ s.alert)
      × ((on_reset_filters s).sort ≡ s.sort)
unfolding filter_of set_search is_filter_active
filter_of-on_reset_filters s = (refl, refl, refl, refl)

includes-others :
    (s t : TriageStatus) (chosen : List TriageStatus)
    → includes (filter (λ v. not (status_beq v s)) chosen) t
      ≡ (if status_beq s t then false else includes chosen t)
includes-others s t [] = ground arith
includes-others s t (c ∷ chosen) =
    ground (
      arith,
      includes-others s t chosen,
      status_beq_iff c s,
      status_beq_iff s t,
      status_beq_iff c t,
    )

-- A click on a status chip turns that status over, and no other.
pub includes-toggle_status :
    (s t : TriageStatus) (chosen : List TriageStatus)
    → includes (toggle_status s chosen) t
      ≡ (if status_beq s t then not (includes chosen t) else includes chosen t)
unfolding toggle_status
includes-toggle_status s t chosen = elim (Bool-cases (includes chosen s)) [
  | inl chosen_now ↦
      rw (chosen_now, toggle_status)
        (ground (arith, includes-others s t chosen, status_beq_iff s t))
  | inr free ↦
      rw (free, toggle_status)
        (ground (arith, includes-append chosen (s ∷ []) t, status_beq_iff s t))
]
