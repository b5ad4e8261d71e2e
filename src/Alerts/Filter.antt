-- ===== src/Alerts/Filter.antt =====
-- `applyClientFilter` of web/src/hooks/useAlerts.ts: what is filtered after the server's answer.
-- `lower` is `toLowerCase`, which stays a parameter.
pub mod Visible
use sigil_manager.Prelude.{
  ℕ, String, Bool, true, false, Option, none, some, List, [], ◌∷◌, if◌then◌else◌, ◌==◌, not, filter,
  ltb, length, includes, trim, contains, string_eq,
}
use sigil_manager.Api.Triage.{TriageStatus, open_status, status_eq}
use sigil_manager.Api.Fleet.{Bucket, high, Event, EventWithTriage, kind_of}

pub record AlertFilter : Type 0 where
  pub min_bucket : Bucket
  pub triage_statuses : List TriageStatus
  pub since : Option String
  pub query : String

abbrev pub default_filter : AlertFilter
default_filter = record { min_bucket = high; triage_statuses = []; since = none; query = "" }

-- `ev.triage?.status ?? 'open'`
abbrev pub status_of : EventWithTriage → TriageStatus
status_of ev = elim ev.triage [ none ↦ open_status | some t ↦ t.status ]

module _ (lower : String → String) where
  -- The test of the free-text filter.
  unfoldable pub matches_query : String → EventWithTriage → Bool
  matches_query q ev =
      if contains (lower ev.event_id) q
      then true
      else if contains (lower ev.host_id) q
      then true
      else (elim ev.evidence [ none ↦ false | some e ↦ contains (lower (kind_of e)) q ])

  unfoldable pub needle : AlertFilter → String
  needle f = lower (trim f.query)

  unfoldable pub apply_client_filter : List EventWithTriage → AlertFilter → List EventWithTriage
  unfolding matches_query needle
  apply_client_filter rows f =
      let out =
        if ltb 0 (length f.triage_statuses)
        then filter (λ ev. includes f.triage_statuses (status_of ev)) rows
        else rows in
      let q = lower (trim f.query) in if not (q == "") then filter (matches_query q) out else out
