-- ===== src/Server/Effects.antt =====
-- What a call of `Upsert` in internal/triage/repo.go does to the tables.
use sigil_manager.Prelude.{
  ℕ, Bool, true, false, Option, none, some, [], ◌∷◌, ◌++◌, ◌≡◌, refl, if◌then◌else◌, ◌==◌,
  string_eq, not, ◌&&◌, ◌||◌, map, find,
}
use sigil_manager.Server.{
  Row, UpsertInput, Store, StoreError, missing_fields, failed, not_found, invalid_status, is_row,
  is_valid,
}
use sigil_manager.Server.Action.{
  Result, ok, err, Action, transaction, Faults, set_columns, entry, commit, begin, select_row,
  execute, pure, raise, insert, append_log, ◌>>◌, ◌>>=◌,
}
use sigil_manager.Server.Ends.{
  Rolled, transaction-ends, if-ends, execute-ends, insert-ends, update-ends, append_log-ends,
  append_log_if-ends,
}
use sigil_manager.Server.Upsert.{
  upsert, insert_path, update_path, new_row, updated_row, is_transition, unless_missing,
  find_existing,
}

module _ (now : ℕ) (input : UpsertInput) where
  -- The store with the row of the insert path.
  abbrev pub inserted : Store → Store
  inserted s = record s {
    rows = s.rows ++ (new_row now input ∷ []);
    log =
        s.log
        ++ (entry s input.host_id input.event_id input.actor none (some (new_row now input).status)
              now
            ∷ []);
  }

  -- The store with the row of the update path.
  abbrev pub updated : Row → Store → Store
  updated r s =
      let row = updated_row now input r in
      record s {
        rows = map (set_columns row) s.rows;
        log =
            if is_transition input r
            then s.log
              ++ (entry s row.host_id row.event_id input.actor (some r.status) (some row.status) now
                  ∷ [])
            else s.log;
      }

  module _ (Q : Result Row × Store → Type 0) (s : Store) where
    -- It is enough to know: `Q` holds of the store as it was with any error, of the new row and the
    -- store that has it, and of an updated row and its store.
    abbrev pub OnInsert : Type 0
    OnInsert =
        find (is_row input.host_id input.event_id) s.rows ≡ none
        → is_valid (new_row now input).status ≡ true
        → (input.evidence_snapshot == "") ≡ false
        → Q (ok (new_row now input), inserted s)

    abbrev pub OnUpdate : Type 0
    OnUpdate =
        (row : Row)
        → find (is_row input.host_id input.event_id) s.rows ≡ some row
        → is_valid (updated_row now input row).status ≡ true
        → Q (ok (updated_row now input row), updated row s)

    abbrev pub OnError : Type 0
    OnError = (e : StoreError) → Q (err e, s)

    insert_path-ends :
        (fails : Faults)
        → OnError
        → find (is_row input.host_id input.event_id) s.rows ≡ none
        → OnInsert
        → Rolled Q s (insert_path fails now input s)
    insert_path-ends fails bad free good =
        let row = new_row now input in
        let done : Action Row = execute fails commit >> pure row in
        let logged : Action Row =
          append_log fails row.host_id row.event_id input.actor none (some row.status) now
          >> done in
        if-ends (Rolled Q s) (input.evidence_snapshot == "") (raise missing_fields)
          (insert fails row >> logged) s (λ empty. bad missing_fields)
          λ given. insert-ends (Rolled Q s) fails row logged s (bad failed) λ untaken right.
            append_log-ends (Rolled Q s) fails row.host_id row.event_id input.actor none
              (some row.status) now done _ (bad failed)
              (execute-ends (Rolled Q s) fails commit (pure row) _ (bad failed)
                (good free right given))

    update_path-ends :
        (fails : Faults) (row : Row)
        → OnError
        → find (is_row input.host_id input.event_id) s.rows ≡ some row
        → OnUpdate
        → Rolled Q s (update_path fails now input row s)
    update_path-ends fails row bad found good =
        let to = updated_row now input row in
        let done : Action Row = execute fails commit >> pure to in
        let logged : Action Row =
          (if is_transition input row
            then append_log fails to.host_id to.event_id input.actor (some row.status)
                (some to.status) now
            else pure tt)
          >> done in
        update-ends (Rolled Q s) fails to logged s (bad failed) λ right.
          append_log_if-ends (Rolled Q s) fails (is_transition input row) to.host_id to.event_id
            input.actor (some row.status) (some to.status) now done _ (bad failed)
            (execute-ends (Rolled Q s) fails commit (pure to) _ (bad failed) (good row found right))

    existing-ends :
        (fails : Faults) (b : Bool) (o : Option Row)
        → OnError
        → find (is_row input.host_id input.event_id) s.rows ≡ o
        → OnInsert
        → OnUpdate
        → Rolled Q s (
            (unless_missing (
                  (λ s'. (if b then err failed else ok tt, s')) >> λ s'. elim o [
                    | none ↦ (err not_found, s')
                    | some r ↦ (ok r, s')
                  ])
                >>= λ existing. elim existing [
                  | none ↦ insert_path fails now input
                  | some row ↦ update_path fails now input row
                ])
              s)
    existing-ends fails true o bad found on_insert on_update = bad failed
    existing-ends fails false none bad found on_insert on_update =
        insert_path-ends fails bad found on_insert
    existing-ends fails false (some row) bad found on_insert on_update =
        update_path-ends fails row bad found on_update

    pub upsert-ends :
        (fails : Faults) → OnError → OnInsert → OnUpdate → Q (upsert fails now input s)
    unfolding upsert
    upsert-ends fails bad on_insert on_update =
        let path : Option Row → Action Row = λ existing. elim existing [
          | none ↦ insert_path fails now input
          | some row ↦ update_path fails now input row
        ] in
        let body : Action Row = find_existing fails now input >>= path in
        let inside : Action Row = execute fails begin >> body in
        let valid : Action Row =
          if not (input.status == "") && not (is_valid input.status)
          then raise invalid_status
          else transaction inside in
        if-ends Q (input.host_id == "" || input.event_id == "" || input.actor == "")
          (raise missing_fields) valid s (λ missing. bad missing_fields)
          λ named.
            if-ends Q (not (input.status == "") && not (is_valid input.status))
              (raise invalid_status) (transaction inside) s (λ invalid. bad invalid_status)
              λ fine. transaction-ends Q inside s (
                execute-ends (Rolled Q s) fails begin body s (bad failed) (
                  existing-ends fails (fails select_row)
                    (find (is_row input.host_id input.event_id) s.rows) bad refl on_insert
                    on_update))
