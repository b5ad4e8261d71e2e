-- ===== src/Server/Console/Rewriting.antt =====
-- A payload of the console on a row that is there: what `Upsert` of internal/triage/repo.go makes of
-- the row is what the models of the panel take it to make.
use sigil_manager.Prelude.{
  ℕ, String, true, false, Option, none, some, ◌≡◌, refl, sym, ap, ◌∙◌, inl, inr, arith, eq_iff,
  Bool-cases, if◌then◌else◌, ◌==◌, string_eq, ◌&&◌, not, find,
}
use sigil_manager.Api.Triage.{
  TriageStatus, open_status, acknowledged, investigating, resolved, status_text, UpsertPayload,
}
use sigil_manager.Api.Fleet.{Evidence}
use sigil_manager.Triage.Reopening.{updated_status}
use sigil_manager.Triage.Panel.Assignee.{updated_assignee}
use sigil_manager.Server.{Row, Store, is_row}
use sigil_manager.Server.Upsert.{updated_row}
use sigil_manager.Server.Tables.{find-set_columns, is_row_self}
use sigil_manager.Server.Handlers.{is_replied, upsert_input}
use sigil_manager.Server.Replies.{handle_triage_upsert-ends}
use sigil_manager.Server.Console.{Visit, received, put_row, status_or_empty}

text_update :
    (a b : String) → (a == "") ≡ false → (if not (a == "") && not (a == b) then a else b) ≡ a
text_update a b given = elim (Bool-cases (a == b)) [
  | inl same ↦ rw (given, same) (sym ((eq_iff a b).0 same))
  | inr other ↦ rw (given, other) refl
]

-- The status by the text of the wire.
status_update :
    (o : Option TriageStatus) (st : TriageStatus)
    → (if not (status_or_empty o == "") && not (status_or_empty o == status_text st)
        then status_or_empty o
        else status_text st)
      ≡ status_text (elim o [ none ↦ st | some s ↦ s ])
status_update none st = refl
status_update (some open_status) st = text_update "open" (status_text st) refl
status_update (some acknowledged) st = text_update "acknowledged" (status_text st) refl
status_update (some investigating) st = text_update "investigating" (status_text st) refl
status_update (some resolved) st = text_update "resolved" (status_text st) refl

module _ (stringify : Option Evidence → String) (format : ℕ → String) (subject : String) where
  -- If a payload for a row that is there is answered with success, then the row of that alert has the
  -- status and the assignee that the panel's models compute, and the evidence and the time of
  -- creation that it had, wherever the database could have failed.
  pub put_row-updates :
      (v : Visit) (p : UpsertPayload (Option Evidence)) (s : Store) (row : Row) (st : TriageStatus)
      → find (is_row p.host_id p.event_id) s.rows ≡ some row
      → row.status ≡ status_text st
      → is_replied (put_row stringify format subject v p s).0 ≡ true
      → (after : Row) × (find
            (is_row p.host_id p.event_id)
            (put_row stringify format subject v p s).1.rows
          ≡ some after)
        × (after.status ≡ status_text (updated_status st p))
        × (after.assignee ≡ updated_assignee row.assignee p)
        × (after.evidence_snapshot ≡ row.evidence_snapshot)
        × (after.created_at ≡ row.created_at)
  unfolding received updated_status updated_assignee
  put_row-updates v p s row st found was accepted =
      handle_triage_upsert-ends format v.faults v.now subject
        (λ r.
          is_replied r.0 ≡ true
          → (after : Row) × (find (is_row p.host_id p.event_id) r.1.rows ≡ some after)
            × (after.status ≡ status_text (updated_status st p))
            × (after.assignee ≡ updated_assignee row.assignee p)
            × (after.evidence_snapshot ≡ row.evidence_snapshot)
            × (after.created_at ≡ row.created_at))
        (received stringify p) s (λ status code no_reply. absurd (ground arith))
        (λ free right given no_row. absurd cc)
        (λ old found_old right yes_reply.
          let same : old ≡ row = cc in
          let to = updated_row v.now (upsert_input subject (received stringify p)) old in
          let was_old : old.status ≡ status_text st = ap (λ r. r.status) same ∙ was in
          (
            to,
            rw (find-set_columns to p.host_id p.event_id s.rows, found_old, is_row_self old) refl,
            rw was_old (status_update p.status st),
            ap (λ r. updated_assignee r.assignee p) same,
            ap (λ r. r.evidence_snapshot) same,
            ap (λ r. r.created_at) same,
          ))
        accepted
