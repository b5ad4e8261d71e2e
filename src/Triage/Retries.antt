-- ===== src/Triage/Retries.antt =====
-- How often the detail of an alert is asked for. The query library runs the attempts: it asks again
-- while `retry` says so, and gives the count of the failures so far, this one not counted.
use sigil_manager.Prelude.{
  ℕ, zero, suc, ◌+◌, ◌≤◌, ◌<◌, Bool, true, false, Option, none, some, ◌≡◌, ◌⊎◌, inl, inr, refl, sym,
  ap, ◌∙◌, arith, nat_eq, Bool-cases, Json,
}
use sigil_manager.Api.Client.{Failure, Outcome, resolved, rejected, not_found, is_instance}
use sigil_manager.Triage.{retry, detail_or_null}
use sigil_manager.Api.Triage.{TriageDetail, open_status}

-- The error that the query shows.
abbrev pub failure_of : Outcome → Option Failure
failure_of (resolved v) = none
failure_of (rejected e) = some e

abbrev is_missing : Outcome → Bool
is_missing (resolved v) = false
is_missing (rejected e) = is_instance not_found e

abbrev retried : Outcome → Bool
retried (resolved v) = true
retried (rejected e) = retry 0 e

module _ (attempt : ℕ → Outcome) where
  -- After `n` failures, the query ends with this outcome, in this many further requests.
  pub data Settles : (n : ℕ) → Outcome → (requests : ℕ) → Type 0 where
    succeeds : {n : ℕ} {v : Json} → attempt n ≡ resolved v → Settles n (resolved v) 1
    gives_up :
        {n : ℕ} {e : Failure}
        → attempt n ≡ rejected e
        → retry n e ≡ false
        → Settles n (rejected e) 1
    retries :
        {n m : ℕ} {e : Failure} {o : Outcome}
        → attempt n ≡ rejected e
        → retry n e ≡ true
        → Settles (suc n) o m
        → Settles n o (suc m)

  Outcome-cases :
      (o : Outcome) → ((v : Json) × (o ≡ resolved v)) ⊎ ((e : Failure) × (o ≡ rejected e))
  Outcome-cases (resolved v) = inl (v, refl)
  Outcome-cases (rejected e) = inr (e, refl)

  retry-lt : (n : ℕ) (e : Failure) → retry n e ≡ true → n < 2
  unfolding retry
  retry-lt n e h = ground arith

  -- The end of the query with this many failures left before it gives up.
  settled_from : (left n : ℕ) → left + n ≡ 2 → (o : Outcome) × (m : ℕ) × Settles n o m
  settled_from zero n h = elim (Outcome-cases (attempt n)) [
    | inl (v, ok) ↦ (resolved v, 1, succeeds ok)
    | inr (e, bad) ↦ elim (Bool-cases (retry n e)) [
      | inr last ↦ (rejected e, 1, gives_up bad last)
      | inl again ↦ absurd (omega (arith, h, retry-lt n e again))
    ]
  ]
  settled_from (suc left) n h = elim (Outcome-cases (attempt n)) [
    | inl (v, ok) ↦ (resolved v, 1, succeeds ok)
    | inr (e, bad) ↦ elim (Bool-cases (retry n e)) [
      | inr last ↦ (rejected e, 1, gives_up bad last)
      | inl again ↦
          let (o, m, rest) = settled_from left (suc n) (omega (arith, h)) in
          (o, suc m, retries bad again rest)
    ]
  ]

  Settles-requests : {n m : ℕ} {o : Outcome} → Settles n o m → n ≤ 2 → n + m ≤ 3
  Settles-requests (succeeds ok) h = omega (arith, h)
  Settles-requests (gives_up bad last) h = omega (arith, h)
  Settles-requests {n} (retries {e = e} bad again rest) h =
      let below = retry-lt n e again in omega (arith, Settles-requests rest (omega (arith, below)))

  -- However the attempts end, the query ends, after at most three requests.
  pub Settles-ends : (o : Outcome) × (m : ℕ) × Settles 0 o m × (m ≤ 3)
  Settles-ends =
      let (o, m, s) = settled_from 2 0 refl in
      (o, m, s, omega (arith, Settles-requests s (omega arith)))

  -- An alert without a triage row is asked for once, and the slide-over shows it as open, with no
  -- detail and nothing pending.
  pub Settles-missing :
      {E : Type 0} (e : Failure) (o : Outcome) (m : ℕ) (shown : Option (TriageDetail E))
      (pending : Bool)
      → attempt 0 ≡ rejected e
      → is_instance not_found e ≡ true
      → Settles 0 o m
      → (m ≡ 1)
        × (o ≡ rejected e)
        × (detail_or_null (record { loaded = shown; error = failure_of o; is_pending = pending })
            ≡ record { detail = none; is_pending = false; status = some open_status })
  unfolding retry detail_or_null
  Settles-missing e o m shown pending asked missing (succeeds ok) = cc
  Settles-missing e o m shown pending asked missing (gives_up {e = f} bad last) =
      let same : rejected f ≡ rejected e = sym bad ∙ asked in
      let also : is_instance not_found f ≡ true = ap is_missing same ∙ missing in
      (refl, same, rw also refl)
  Settles-missing e o m shown pending asked missing (retries {e = f} bad again rest) =
      let same : retry 0 f ≡ retry 0 e = ap retried (sym bad ∙ asked) in absurd (ground arith)
