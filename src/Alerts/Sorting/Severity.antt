-- ===== src/Alerts/Sorting/Severity.antt =====
-- The severity ranks of the queue, read from the buckets and severities of web/src/api/fleet.ts.
use sigil_manager.Prelude.{
  ℕ, String, false, Option, none, some, [], ◌∷◌, ◌≡◌, ◌∙◌, refl, ap, arith, includes, ◌==◌,
  string_eq, eq_iff, Bool-cases, inl, inr, if◌then◌else◌, Fields,
}
use sigil_manager.Api.Fleet.{
  EventWithTriage, Evidence, AiGuardEvidence, ai_guard_risk_assessed, hook, ai_guard_toggle_drift,
  other_kind, kind_of, hook_invocation, hook_decision, hook_config_drift,
  possible_hook_activity_silent,
}
use sigil_manager.Alerts.Sorting.{bucket_rank_of, rank_or_zero, bucket_rank_for, bucket_of}

-- The evidence is an assessment with this bucket.
abbrev IsAssessed : Option Evidence → String → Type 0
IsAssessed o bucket =
    (a : AiGuardEvidence) × (o ≡ some (ai_guard_risk_assessed a)) × (a.bucket ≡ bucket)

-- The evidence, if there is any, is no assessment.
abbrev IsUnassessed : Option Evidence → Type 0
IsUnassessed o = (e : Evidence) → o ≡ some e → (kind_of e == "ai_guard_risk_assessed") ≡ false

-- The rank of an event: of an assessment by its bucket, with every unknown one at the end, and of
-- any other event by whether it is a warning.
pub data HasRank (o : Option Evidence) (severity : String) : ℕ → Type 0 where
  of_critical : IsAssessed o "critical" → HasRank o severity 4
  of_high : IsAssessed o "high" → HasRank o severity 3
  of_medium : IsAssessed o "medium" → HasRank o severity 2
  of_low : IsAssessed o "low" → HasRank o severity 1
  of_another :
      (bucket : String)
      → IsAssessed o bucket
      → includes ("critical" ∷ "high" ∷ "medium" ∷ "low" ∷ []) bucket ≡ false
      → HasRank o severity 0
  of_no_bucket :
      (fields : Fields)
      → o ≡ some (other_kind "ai_guard_risk_assessed" fields)
      → HasRank o severity 0
  of_warning : IsUnassessed o → severity ≡ "warn" → HasRank o severity 2
  of_quiet : IsUnassessed o → (severity == "warn") ≡ false → HasRank o severity 0

module _ (severity : String) where
  assessed :
      (a : AiGuardEvidence) (b : String)
      → a.bucket ≡ b
      → HasRank (some (ai_guard_risk_assessed a)) severity (rank_or_zero (some b))
  unfolding rank_or_zero bucket_rank_of
  assessed a b same = elim (Bool-cases (b == "critical")) [
    | inl c ↦ (let e = (eq_iff b "critical").0 c in rw e (of_critical (a, refl, same ∙ e)))
    | inr not_c ↦ elim (Bool-cases (b == "high")) [
      | inl h ↦ (let e = (eq_iff b "high").0 h in rw e (of_high (a, refl, same ∙ e)))
      | inr not_h ↦ elim (Bool-cases (b == "medium")) [
        | inl m ↦ (let e = (eq_iff b "medium").0 m in rw e (of_medium (a, refl, same ∙ e)))
        | inr not_m ↦ elim (Bool-cases (b == "low")) [
          | inl l ↦ (let e = (eq_iff b "low").0 l in rw e (of_low (a, refl, same ∙ e)))
          | inr not_l ↦
              let unlisted : includes ("critical" ∷ "high" ∷ "medium" ∷ "low" ∷ []) b ≡ false =
                ground (
                  arith,
                  eq_iff b "critical",
                  eq_iff b "high",
                  eq_iff b "medium",
                  eq_iff b "low",
                  eq_iff "critical" b,
                  eq_iff "high" b,
                  eq_iff "medium" b,
                  eq_iff "low" b,
                ) in
              rw (not_c, not_h, not_m, not_l)
                (elim (Bool-cases (b == "")) [
                  | inl empty ↦ rw empty (of_another b (a, refl, same) unlisted)
                  | inr given ↦ elim (Bool-cases (b == "info")) [
                    | inl info ↦ rw (given, info) (of_another b (a, refl, same) unlisted)
                    | inr no_info ↦ rw (given, no_info) (of_another b (a, refl, same) unlisted)
                  ]
                ])
        ]
      ]
    ]
  ]

  unassessed :
      (o : Option Evidence)
      → IsUnassessed o
      → HasRank o severity (if severity == "warn" then 2 else 0)
  unassessed o other = elim (Bool-cases (severity == "warn")) [
    | inl warns ↦ rw warns (of_warning other ((eq_iff severity "warn").0 warns))
    | inr quiet ↦ rw quiet (of_quiet other quiet)
  ]

  of_another_kind :
      (e : Evidence)
      → (kind_of e == "ai_guard_risk_assessed") ≡ false
      → HasRank (some e) severity (if severity == "warn" then 2 else 0)
  of_another_kind e other = unassessed (some e) λ e' same. ground arith

  rank_of_evidence :
      (o : Option Evidence)
      → HasRank o severity (elim o [
        | none ↦ if severity == "warn" then 2 else 0
        | some e ↦
            if kind_of e == "ai_guard_risk_assessed"
            then rank_or_zero (bucket_of e)
            else if severity == "warn"
            then 2
            else 0
      ])
  unfolding rank_or_zero
  rank_of_evidence none = unassessed none λ e no. absurd cc
  rank_of_evidence (some (ai_guard_risk_assessed a)) = assessed a a.bucket refl
  rank_of_evidence (some (hook (hook_invocation h))) = of_another_kind _ refl
  rank_of_evidence (some (hook (hook_decision h))) = of_another_kind _ refl
  rank_of_evidence (some (hook (hook_config_drift h))) = of_another_kind _ refl
  rank_of_evidence (some (hook (possible_hook_activity_silent h))) = of_another_kind _ refl
  rank_of_evidence (some (ai_guard_toggle_drift d)) = of_another_kind _ refl
  rank_of_evidence (some (other_kind kind fields)) =
      elim (Bool-cases (kind == "ai_guard_risk_assessed")) [
        | inl named ↦ rw ((eq_iff kind "ai_guard_risk_assessed").0 named) (of_no_bucket fields refl)
        | inr other ↦ rw other (of_another_kind (other_kind kind fields) other)
      ]

-- The table ranks every event so.
pub bucket_rank_for-HasRank :
    (ev : EventWithTriage) → HasRank ev.evidence ev.severity (bucket_rank_for ev)
unfolding bucket_rank_for
bucket_rank_for-HasRank ev = rank_of_evidence ev.severity ev.evidence

-- The rank of the table, by the evidence and the severity alone.
abbrev ranked : Option Evidence → String → ℕ
ranked o severity = elim o [
  | none ↦ if severity == "warn" then 2 else 0
  | some e ↦
      if kind_of e == "ai_guard_risk_assessed"
      then rank_or_zero (bucket_of e)
      else if severity == "warn"
      then 2
      else 0
]

ranked-unassessed :
    (o : Option Evidence) (severity : String)
    → IsUnassessed o
    → ranked o severity ≡ (if severity == "warn" then 2 else 0)
ranked-unassessed none severity other = refl
ranked-unassessed (some e) severity other = rw (other e refl) refl

ranked-assessed :
    (o : Option Evidence) (severity bucket : String)
    → IsAssessed o bucket
    → ranked o severity ≡ rank_or_zero (some bucket)
ranked-assessed o severity bucket (a, there, named) =
    ap (λ o'. ranked o' severity) there ∙ ap (λ b. rank_or_zero (some b)) named

another_rank :
    (bucket : String)
    → includes ("critical" ∷ "high" ∷ "medium" ∷ "low" ∷ []) bucket ≡ false
    → rank_or_zero (some bucket) ≡ 0
unfolding rank_or_zero bucket_rank_of
another_rank bucket h = ground (
  arith,
  eq_iff bucket "critical",
  eq_iff bucket "high",
  eq_iff bucket "medium",
  eq_iff bucket "low",
  eq_iff "critical" bucket,
  eq_iff "high" bucket,
  eq_iff "medium" bucket,
  eq_iff "low" bucket,
)

HasRank-ranked :
    (o : Option Evidence) (severity : String) (n : ℕ) → HasRank o severity n → ranked o severity ≡ n
unfolding rank_or_zero bucket_rank_of
HasRank-ranked o severity _ (of_critical h) = ranked-assessed o severity "critical" h
HasRank-ranked o severity _ (of_high h) = ranked-assessed o severity "high" h
HasRank-ranked o severity _ (of_medium h) = ranked-assessed o severity "medium" h
HasRank-ranked o severity _ (of_low h) = ranked-assessed o severity "low" h
HasRank-ranked o severity _ (of_another bucket h unlisted) =
    ranked-assessed o severity bucket h ∙ another_rank bucket unlisted
HasRank-ranked o severity _ (of_no_bucket fields there) = ap (λ o'. ranked o' severity) there
HasRank-ranked o severity _ (of_warning other warns) =
    ranked-unassessed o severity other ∙ ap (λ s. if s == "warn" then 2 else 0) warns
HasRank-ranked o severity _ (of_quiet other quiet) =
    ranked-unassessed o severity other ∙ (rw quiet refl)

-- No event has another rank.
pub HasRank-bucket_rank_for :
    (ev : EventWithTriage) (n : ℕ) → HasRank ev.evidence ev.severity n → bucket_rank_for ev ≡ n
unfolding bucket_rank_for
HasRank-bucket_rank_for ev n h = HasRank-ranked ev.evidence ev.severity n h
