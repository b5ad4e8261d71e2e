-- ===== src/Triage/Reopening.antt =====
-- A note on an alert whose detail the slide-over does not have: `onSubmitNote` of
-- web/src/components/AlertsQueue/SlideOver.tsx, `useTriageDetailOrNull` of web/src/hooks/useTriage.ts,
-- and the update of a row in internal/triage/repo.go.
use sigil_manager.Prelude.{
  String, Bool, true, false, Option, none, some, List, [], ◌∷◌, ◌≡◌, refl, inl, inr, Bool-cases,
  truthy, trim,
}
use sigil_manager.Api.Client.{Failure, not_found, is_instance}
use sigil_manager.Api.Triage.{TriageStatus, open_status, TriageDetail, UpsertPayload}
use sigil_manager.Api.Fleet.{EventWithTriage, Evidence}
use sigil_manager.Triage.{Write, upserted, noted, DetailOrNull, detail_or_null, on_submit_note}

-- The status of a row that is there, after a write that the server accepts.
unfoldable pub updated_status : TriageStatus → UpsertPayload (Option Evidence) → TriageStatus
updated_status existing payload = elim payload.status [ none ↦ existing | some s ↦ s ]

abbrev pub row_after : List Write → TriageStatus → TriageStatus
row_after [] s = s
row_after (upserted p true ∷ ws) s = row_after ws (updated_status s p)
row_after (upserted p false ∷ ws) s = row_after ws s
row_after (noted n ok ∷ ws) s = row_after ws s

-- `!!triage.data`
abbrev pub has_detail : {E : Type 0} → DetailOrNull E → Bool
has_detail d = elim d.detail [ none ↦ false | some detail ↦ true ]

module _ (E : Type 0) where
  -- The panel while it has no detail, for whatever reason.
  abbrev pub unloaded : Option Failure → (is_pending : Bool) → DetailOrNull E
  unloaded error is_pending =
      detail_or_null (record { loaded = none; error = error; is_pending = is_pending })

  abbrev pub loaded : TriageDetail E → DetailOrNull E
  loaded d = detail_or_null (record { loaded = some d; error = none; is_pending = false })

  unloaded-empty :
      (error : Option Failure) (is_pending : Bool) → has_detail (unloaded error is_pending) ≡ false
  unfolding detail_or_null
  unloaded-empty none is_pending = refl
  unloaded-empty (some e) is_pending = elim (Bool-cases (is_instance not_found e)) [
    | inl missing ↦ rw missing refl
    | inr other ↦ rw other refl
  ]

  -- Where the server accepts everything, a note that is not only white space and is submitted while
  -- the detail is pending, or has failed to load, sets the status of the alert's row to open, whatever
  -- it was; with the detail loaded, the status stays.
  pub row_after-on_submit_note :
      (event : EventWithTriage) (draft : String) (s : TriageStatus) (error : Option Failure)
      (is_pending : Bool) (d : TriageDetail E)
      → truthy (trim draft) ≡ true
      → let writes_with = λ (panel : DetailOrNull E).
        (on_submit_note (λ _. true) (λ _. true) event (has_detail panel) draft).writes in
        (row_after (writes_with (unloaded error is_pending)) s ≡ open_status)
        × (row_after (writes_with (loaded d)) s ≡ s)
  unfolding on_submit_note detail_or_null updated_status
  row_after-on_submit_note event draft s error is_pending d written =
      (rw (unloaded-empty error is_pending, written) refl, rw written refl)
