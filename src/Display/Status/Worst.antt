-- ===== src/Display/Status/Worst.antt =====
-- The compliance pill shows the worst state that the row's signals say.
use sigil_manager.Prelude.{
  false, Bool-cases, ◌⊎◌, inl, inr, ℕ, Bool, true, ◌≡◌, ◌≤◌, arith, is_positive,
}
use sigil_manager.Api.Fleet.{ComplianceRow}
use sigil_manager.Display.Status.{
  ComplianceStatus, in_sync, drift, expired, failing_signature, derive_compliance_status,
}

-- Whether a row gives the signal that a state stands for.
abbrev pub signals : ComplianceStatus → ComplianceRow → Bool
signals in_sync row = true
signals drift row = is_positive row.version_drift
signals failing_signature row = is_positive row.signature_failures_24h
signals expired row = row.policy_expired_active

-- How bad a state is: expired > failing_signature > drift > in_sync.
abbrev pub badness : ComplianceStatus → ℕ
badness in_sync = 0
badness drift = 1
badness failing_signature = 2
badness expired = 3

-- The status that is shown is one that the row signals, and no status that the row signals is
-- worse.
pub derive_compliance_status_lem :
    (row : ComplianceRow)
    → (signals (derive_compliance_status row) row ≡ true)
      × ((s : ComplianceStatus)
          → (signals s row ≡ false) ⊎ (badness s ≤ badness (derive_compliance_status row)))
unfolding derive_compliance_status
derive_compliance_status_lem row = (ground arith, worst)
  where
    worst :
        (s : ComplianceStatus)
        → (signals s row ≡ false) ⊎ (badness s ≤ badness (derive_compliance_status row))
    worst s = elim (Bool-cases (signals s row)) [ inr off ↦ inl off | inl on ↦ inr (bound s on) ]
      where
        bound :
            (t : ComplianceStatus)
            → signals t row ≡ true
            → badness t ≤ badness (derive_compliance_status row)
        bound in_sync h = ground arith
        bound drift h = ground arith
        bound failing_signature h = ground arith
        bound expired h = ground arith
