-- ===== src/Server/Console/Serving.antt =====
-- The slide-over of web/src/components/AlertsQueue/SlideOver.tsx on a store whose database does not
-- fail: what is written comes through, and is shown.
use sigil_manager.Prelude.{
  ℕ, String, Bool, true, false, some, [], ◌∷◌, ◌≡◌, ◌⊎◌, refl, sym, ◌∙◌, inl, inr, arith, eq_iff,
  Bool-cases, Option-cases, ◌==◌, string_eq, ◌||◌, not, find, any, Option,
}
use sigil_manager.Api.Triage.{
  TriageStatus, open_status, acknowledged, investigating, resolved, status_text,
}
use sigil_manager.Api.Fleet.{EventWithTriage, Evidence}
use sigil_manager.Triage.{set_status}
use sigil_manager.Server.{Row, Store, is_row, is_valid, UpsertInput}
use sigil_manager.Server.Action.{Result, ok, err}
use sigil_manager.Server.Upsert.{upsert, new_row, updated_row}
use sigil_manager.Server.Tables.{find-set_columns, is_row_self, find-append_none}
use sigil_manager.Server.Healthy.{no_faults, any-none, IsNamed, upsert_existing, upsert_fresh}
use sigil_manager.Server.Handlers.{
  replied, is_replied, upsert_input, handle_triage_upsert, reply_of, row_to_response, GetResponse,
  handle_triage_get,
}
use sigil_manager.Server.Reading.{detail_of, handle_triage_get-found}
use sigil_manager.Server.Console.{Visit, received, put_row}

abbrev pub healthy : ℕ → Visit
healthy now = record { faults = no_faults; now = now }

status_text-valid : (st : TriageStatus) → is_valid (status_text st) ≡ true
unfolding is_valid
status_text-valid open_status = refl
status_text-valid acknowledged = refl
status_text-valid investigating = refl
status_text-valid resolved = refl

status_text-given : (st : TriageStatus) → (status_text st == "") ≡ false
status_text-given open_status = refl
status_text-given acknowledged = refl
status_text-given investigating = refl
status_text-given resolved = refl

module _ (now : ℕ) (input : UpsertInput) (given : (input.status == "") ≡ false) where
  -- A row takes a status that is given.
  updated-status : (row : Row) → (updated_row now input row).status ≡ input.status
  updated-status row = elim (Bool-cases (input.status == row.status)) [
    | inl same ↦ rw (given, same) (sym ((eq_iff input.status row.status).0 same))
    | inr other ↦ rw (given, other) refl
  ]

  new-status : (new_row now input).status ≡ input.status
  new-status = rw given refl

  -- The call has written the row with that status.
  abbrev Writes : Result Row × Store → Type 0
  Writes (r, s') =
      (row : Row) × (r ≡ ok row)
      × (find (is_row input.host_id input.event_id) s'.rows ≡ some row)
      × (row.status ≡ input.status)

  replied-Writes :
      (format : ℕ → String) (x : Result Row × Store)
      → Writes x
      → let (r, s') = reply_of (row_to_response format) x in
        (is_replied r ≡ true)
        × ((row : Row) × (find (is_row input.host_id input.event_id) s'.rows ≡ some row)
            × (row.status ≡ input.status))
  replied-Writes format (ok r, s') (row, done, found, status) = (refl, (row, found, status))
  replied-Writes format (err e, s') (row, done, found, status) = absurd cc

  upsert-Writes :
      (s : Store)
      → IsNamed now input s
      → is_valid input.status ≡ true
      → ((input.evidence_snapshot == "") ≡ false)
        ⊎ (any (is_row input.host_id input.event_id) s.rows ≡ true)
      → Writes (upsert no_faults now input s)
  upsert-Writes s named valid backed =
      elim (Option-cases (find (is_row input.host_id input.event_id) s.rows)) [
        | inl free ↦ elim backed [
          | inl kept ↦ rw (upsert_fresh now input s named free (rw new-status valid) kept) (
            new_row now input,
            refl,
            find-append_none (is_row input.host_id input.event_id) s.rows (new_row now input ∷ [])
                  free
                ∙ rw (is_row_self (new_row now input)) refl,
            new-status,
          )
          | inr there ↦
              absurd
                (ground (arith, any-none (is_row input.host_id input.event_id) s.rows free, there))
        ]
        | inr (row, found) ↦
            let to = updated_row now input row in
            rw (upsert_existing now input s row named found (rw (updated-status row) valid)) (
              to,
              refl,
              rw (find-set_columns to input.host_id input.event_id s.rows, found, is_row_self row)
                  refl,
              updated-status row,
            )
      ]

-- What the panel takes for known is so.
abbrev pub Knows : EventWithTriage → Bool → Store → Type 0
Knows event has_row s = (not has_row || any (is_row event.host_id event.event_id) s.rows) ≡ true

module _ (stringify : Option Evidence → String) (format : ℕ → String) (subject : String)
    (signed_in : (subject == "") ≡ false) (event : EventWithTriage)
    (addressed : (event.host_id == "" || event.event_id == "") ≡ false) (evidence : Evidence)
    (carried : event.evidence ≡ some evidence)
    (written : (stringify (some evidence) == "") ≡ false) where
  -- The payload has the evidence, or the row is there.
  backed :
      (has_row : Bool) (st : TriageStatus) (s : Store)
      → Knows event has_row s
      → (((received stringify (set_status event has_row st)).evidence_snapshot == "") ≡ false)
        ⊎ (any (is_row event.host_id event.event_id) s.rows ≡ true)
  unfolding received set_status
  backed true st s knows = inr (knows)
  backed false st s knows = inl (rw carried written)

  pub set_status-replied :
      (now : ℕ) (has_row : Bool) (st : TriageStatus) (s : Store)
      → Knows event has_row s
      → let (r, s') =
          put_row stringify format subject (healthy now) (set_status event has_row st) s in
        (is_replied r ≡ true)
        × ((row : Row) × (find (is_row event.host_id event.event_id) s'.rows ≡ some row)
            × (row.status ≡ status_text st))
  unfolding handle_triage_upsert set_status received
  set_status-replied now has_row st s knows =
      let input = upsert_input subject (received stringify (set_status event has_row st)) in
      rw (addressed, status_text-given st, status_text-valid st)
        (replied-Writes now input (status_text-given st) format (upsert no_faults now input s) (
          upsert-Writes now input (status_text-given st) s
            (
              ground (arith, addressed, signed_in),
              rw (status_text-valid st, status_text-given st) refl,
            )
            (status_text-valid st) (backed has_row st s knows)))

  -- Where the database does not fail, the panel is right about a row that it knows of, and the alert
  -- has evidence, then after the button of a status was pressed the detail of the alert is answered
  -- with that status, whatever the store held before.
  pub set_status-shown :
      (now : ℕ) (has_row : Bool) (st : TriageStatus) (s : Store)
      → Knows event has_row s
      → let s' =
          (put_row stringify format subject (healthy now) (set_status event has_row st) s).1 in
        (detail : GetResponse) × (handle_triage_get format no_faults event.host_id event.event_id s'
          ≡ (replied detail, s'))
        × (detail.row.status ≡ status_text st)
  set_status-shown now has_row st s knows =
      let s' = (put_row stringify format subject (healthy now) (set_status event has_row st) s).1 in
      let (accepted, (row, found, status)) = set_status-replied now has_row st s knows in
      (
        detail_of format event.host_id event.event_id row s',
        handle_triage_get-found format event.host_id event.event_id row s' addressed found,
        status,
      )
