-- ===== src/Server/Upsert.antt =====
-- `Upsert` of internal/triage/repo.go.
use sigil_manager.Prelude.{
  ℕ, Bool, Option, none, some, if◌then◌else◌, ◌==◌, string_eq, ◌&&◌, ◌||◌, not,
}
use sigil_manager.Server.{Row, UpsertInput, not_found, missing_fields, invalid_status, is_valid}
use sigil_manager.Server.Action.{
  Result, ok, err, Action, raise, pure, ◌>>=◌, ◌>>◌, transaction, Faults, execute, begin, commit,
  get_row, insert, update, append_log,
}

-- The row of the insert path.
abbrev pub new_row : ℕ → UpsertInput → Row
new_row now input = record {
  host_id = input.host_id;
  event_id = input.event_id;
  status = if input.status == "" then "open" else input.status;
  assignee = input.assignee;
  evidence_snapshot = input.evidence_snapshot;
  created_at = now;
  updated_at = now;
}

-- Whether the update path moves the row to another status.
abbrev pub is_transition : UpsertInput → Row → Bool
is_transition input existing = not (input.status == "") && not (input.status == existing.status)

-- The row of the update path.
abbrev pub updated_row : ℕ → UpsertInput → Row → Row
updated_row now input existing = record existing {
  status = if is_transition input existing then input.status else existing.status;
  assignee =
      if input.clear_assignee
      then none
      else (elim input.assignee [ none ↦ existing.assignee | some name ↦ some name ]);
  updated_at = now;
}

-- A missing row is no error here.
abbrev pub or_missing : Result Row → Result (Option Row)
or_missing (ok row) = ok (some row)
or_missing (err not_found) = ok none
or_missing (err e) = err e

abbrev pub unless_missing : Action Row → Action (Option Row)
unless_missing m s = let (r, s') = m s in (or_missing r, s')

module _ (fails : Faults) (now : ℕ) (input : UpsertInput) where
  abbrev pub find_existing : Action (Option Row)
  find_existing = unless_missing (get_row fails input.host_id input.event_id)

  abbrev pub insert_path : Action Row
  insert_path = if input.evidence_snapshot == "" then raise missing_fields else (do
    let row = new_row now input
    insert fails row
    append_log fails row.host_id row.event_id input.actor none (some row.status) now
    execute fails commit
    pure row)

  abbrev pub update_path : Row → Action Row
  update_path existing = do
    let updated = updated_row now input existing
    update fails updated
    if is_transition input existing
        then append_log fails updated.host_id updated.event_id input.actor (some existing.status)
            (some updated.status) now
        else pure tt
    execute fails commit
    pure updated

  unfoldable pub upsert : Action Row
  upsert =
      if input.host_id == "" || input.event_id == "" || input.actor == ""
      then raise missing_fields
      else if not (input.status == "") && not (is_valid input.status)
      then raise invalid_status
      else transaction (do
        execute fails begin
        existing ← find_existing
        elim existing [ none ↦ insert_path | some row ↦ update_path row ])
