-- ===== src/Alerts/Filter/Visible.antt =====
-- Which events the client's filters leave visible.
use sigil_manager.Prelude.{
  ℕ, suc, sym, ap, ◌∙◌, String, Bool, true, false, Option, none, some, List, [], ◌∷◌, ◌≡◌, ◌↔◌,
  refl, arith, if◌then◌else◌, ◌&&◌, not, ◌==◌, string_eq, filter, includes, filter-filter,
  Bool-cases, inl, inr, trim, ltb, length, contains, ◌⊎◌, eq_iff,
}
use sigil_manager.Api.Triage.{TriageStatus, open_status, status_eq}
use sigil_manager.Api.Fleet.{EventWithTriage, TriageView, kind_of, Evidence}
use sigil_manager.Alerts.Filter.{AlertFilter, status_of, matches_query, apply_client_filter}

ltb_pos : (n : ℕ) → ltb 0 (suc n) ≡ true
ltb_pos n = ground arith

filter-true : (rows : List EventWithTriage) → filter (λ ev. true) rows ≡ rows
filter-true [] = refl
filter-true (ev ∷ rows) = ap (◌∷◌ ev) (filter-true rows)

-- The triage status of an event: open until there is a row, and then the row's.
pub data HasStatus : Option TriageView → TriageStatus → Type 0 where
  untriaged : HasStatus none open_status
  triaged : (t : TriageView) → HasStatus (some t) t.status

status_of-HasStatus : (ev : EventWithTriage) → HasStatus ev.triage (status_of ev)
status_of-HasStatus ev = by_row ev.triage
  where
    by_row :
        (o : Option TriageView) → HasStatus o (elim o [ none ↦ open_status | some t ↦ t.status ])
    by_row none = untriaged
    by_row (some t) = triaged t

-- An event has one status.
HasStatus-status_of :
    (o : Option TriageView) (s : TriageStatus)
    → HasStatus o s
    → elim o as (λ _. TriageStatus) [ none ↦ open_status | some t ↦ t.status ] ≡ s
HasStatus-status_of _ _ untriaged = refl
HasStatus-status_of _ _ (triaged t) = refl

module _ (lower : String → String) where
  -- What the filter row says of one event: its triage status is among the chosen ones, if any are
  -- chosen; and the text searched for, if there is any, occurs in the event's id, its host's id or
  -- the kind of its evidence, without regard to case.
  abbrev pub Occurs : String → EventWithTriage → Type 0
  Occurs q ev =
      (contains (lower ev.event_id) q ≡ true)
      ⊎ (contains (lower ev.host_id) q ≡ true)
      ⊎ ((e : Evidence) × (ev.evidence ≡ some e) × (contains (lower (kind_of e)) q ≡ true))

  pub record IsWanted (f : AlertFilter) (ev : EventWithTriage) : Type 0 where
    pub status :
        (f.triage_statuses ≡ [])
        ⊎ ((s : TriageStatus) × HasStatus ev.triage s × (includes f.triage_statuses s ≡ true))
    pub text : (lower (trim f.query) ≡ "") ⊎ Occurs (lower (trim f.query)) ev

  status_wanted : List TriageStatus → EventWithTriage → Bool
  status_wanted [] ev = true
  status_wanted (s ∷ ss) ev = includes (s ∷ ss) (status_of ev)

  text_wanted : String → EventWithTriage → Bool
  text_wanted q ev = if not (q == "") then matches_query lower q ev else true

  -- The two filters in one, and how `&&` reads it.
  wanted : AlertFilter → EventWithTriage → Bool
  wanted f ev = status_wanted f.triage_statuses ev && text_wanted (lower (trim f.query)) ev

  keep_text :
      (q : String) (rows : List EventWithTriage)
      → (if not (q == "") then filter (matches_query lower q) rows else rows)
        ≡ filter (text_wanted q) rows
  unfolding text_wanted
  keep_text q rows = elim (Bool-cases (q == "")) [
    | inl empty ↦ rw (empty, text_wanted) (sym (filter-true rows))
    | inr given ↦ rw (given, text_wanted) refl
  ]

  keep_status :
      (ss : List TriageStatus) (rows : List EventWithTriage)
      → (if ltb 0 (length ss) then filter (λ ev. includes ss (status_of ev)) rows else rows)
        ≡ filter (status_wanted ss) rows
  unfolding status_wanted
  keep_status [] rows = sym (filter-true rows)
  keep_status (s ∷ ss) rows = rw (ltb_pos (length ss))

  apply_client_filter-filter :
      (rows : List EventWithTriage) (f : AlertFilter)
      → apply_client_filter lower rows f ≡ filter (wanted f) rows
  unfolding apply_client_filter wanted
  apply_client_filter-filter rows f =
      keep_text (lower (trim f.query)) (
        if ltb 0 (length f.triage_statuses)
        then filter (λ ev. includes f.triage_statuses (status_of ev)) rows
        else rows)
      ∙ ap (filter (text_wanted (lower (trim f.query)))) (keep_status f.triage_statuses rows)
      ∙ filter-filter (text_wanted (lower (trim f.query))) (status_wanted f.triage_statuses) rows

  kind_part :
      (q : String) (o : Option Evidence)
      → elim o as (λ _. Bool) [ none ↦ false | some e ↦ contains (lower (kind_of e)) q ] ≡ true
      → (e : Evidence) × (o ≡ some e) × (contains (lower (kind_of e)) q ≡ true)
  kind_part q none h = cc
  kind_part q (some e) h = (e, refl, h)

  matches_query-Occurs :
      (q : String) (ev : EventWithTriage) → (matches_query lower q ev ≡ true) ↔ Occurs q ev
  unfolding matches_query
  matches_query-Occurs q ev = (
    λ h. elim (Bool-cases (contains (lower ev.event_id) q)) [
      | inl here ↦ inl here
      | inr not_id ↦ elim (Bool-cases (contains (lower ev.host_id) q)) [
        | inl here ↦ inr (inl here)
        | inr not_host ↦ inr (inr (kind_part q ev.evidence (ground arith)))
      ]
    ],
    λ h. ground arith,
  )

  status_wanted_iff :
      (ss : List TriageStatus) (ev : EventWithTriage)
      → (status_wanted ss ev ≡ true)
        ↔ ((ss ≡ []) ⊎ ((s : TriageStatus) × HasStatus ev.triage s × (includes ss s ≡ true)))
  unfolding status_wanted
  status_wanted_iff [] ev = (λ h. inl refl, λ h. refl)
  status_wanted_iff (s ∷ ss) ev = (
    λ h. inr (status_of ev, status_of-HasStatus ev, h),
    λ h. elim h [
      | inl empty ↦ absurd cc
      | inr (chosen, has, listed) ↦ rw (HasStatus-status_of ev.triage chosen has) listed
    ],
  )

  text_wanted_iff :
      (q : String) (ev : EventWithTriage) → (text_wanted q ev ≡ true) ↔ ((q ≡ "") ⊎ Occurs q ev)
  unfolding text_wanted
  text_wanted_iff q ev = (
    λ h. elim (Bool-cases (q == "")) [
      | inl empty ↦ inl ((eq_iff q "").0 empty)
      | inr given ↦ inr ((matches_query-Occurs q ev).0 (ground arith))
    ],
    λ h. elim h [
      | inl empty ↦ rw ((eq_iff q "").1 empty, text_wanted)
      | inr here ↦ let found = (matches_query-Occurs q ev).1 here in ground arith
    ],
  )

  wanted-IsWanted : (f : AlertFilter) (ev : EventWithTriage) → (wanted f ev ≡ true) ↔ IsWanted f ev
  unfolding wanted
  wanted-IsWanted f ev =
      let (status_to, status_from) = status_wanted_iff f.triage_statuses ev in
      let (text_to, text_from) = text_wanted_iff (lower (trim f.query)) ev in
      (
        λ h. record { status = status_to (ground arith); text = text_to (ground arith) },
        λ w. let chosen = status_from w.status in let found = text_from w.text in ground arith,
      )

  -- The visible rows are the rows of the server in their order, without those that the filter row
  -- does not want: an event stays exactly if it is wanted.
  pub apply_client_filter_lem :
      (rows : List EventWithTriage) (f : AlertFilter)
      → (keep : EventWithTriage → Bool) × (apply_client_filter lower rows f ≡ filter keep rows)
        × ((ev : EventWithTriage) → (keep ev ≡ true) ↔ IsWanted f ev)
  apply_client_filter_lem rows f = (wanted f, apply_client_filter-filter rows f, wanted-IsWanted f)
