-- ===== src/Server/Action.antt =====
-- The statements that internal/triage/repo.go has the database execute, with the constraints of
-- internal/triage/schema.go. Whether the database fails at a statement is a parameter.
use sigil_manager.Prelude.{
  ℕ, suc, String, Bool, true, false, Option, none, some, [], ◌∷◌, ◌++◌, if◌then◌else◌, string_eq,
  ◌||◌, not, find, any, map, length,
}
use sigil_manager.Server.{
  Row, Note, LogEntry, Store, StoreError, not_found, failed, is_row, is_valid,
}

pub data Result {ℓ} (A : Type ℓ) : Type ℓ where
  ok : A → Result A
  err : StoreError → Result A

abbrev pub is_ok {ℓ} : {A : Type ℓ} → Result A → Bool
is_ok (ok a) = true
is_ok (err e) = false

-- What was written before an error stays written, so the store comes back beside it.
abbrev pub Action : Type 0 → Type 0
Action A = Store → Result A × Store

abbrev pub raise : {A : Type 0} → StoreError → Action A
raise e s = (err e, s)

abbrev pub pure : {A : Type 0} → A → Action A
pure a s = (ok a, s)

infixl 5 ◌>>=◌ ◌>>◌
abbrev pub ◌>>=◌ : {A B : Type 0} → Action A → (A → Action B) → Action B
◌>>=◌ m f s = let (r, s') = m s in elim r [ ok a ↦ f a s' | err e ↦ (err e, s') ]

abbrev pub ◌>>◌ : {B : Type 0} → Action (Unit {0}) → Action B → Action B
m >> k = m >>= λ _. k

abbrev pub modify : (Store → Store) → Action (Unit {0})
modify f s = (ok tt, f s)

-- The deferred rollback: after an error the store is as it was.
abbrev pub transaction : {A : Type 0} → Action A → Action A
transaction m s = let (r, s') = m s in elim r [ ok a ↦ (ok a, s') | err e ↦ (err e, s) ]

pub data Statement : Type 0 where
  begin select_row insert_row update_row insert_log commit insert_note select_notes select_log
        select_page :
      Statement

-- Whether the database fails at a statement.
abbrev pub Faults : Type 0
Faults = Statement → Bool

-- `SET status = ?, assignee = ?, updated_at = ?` where the key matches.
abbrev pub set_columns : Row → Row → Row
set_columns updated r =
    if is_row updated.host_id updated.event_id r
    then record r {
      status = updated.status;
      assignee = updated.assignee;
      updated_at = updated.updated_at;
    }
    else r

-- The next entry of the log.
abbrev pub entry : Store → String → String → String → Option String → Option String → ℕ → LogEntry
entry s host_id event_id actor from to at = record {
  id = suc (length s.log);
  host_id = host_id;
  event_id = event_id;
  actor = actor;
  from_status = from;
  to_status = to;
  at = at;
}

module _ (fails : Faults) where
  abbrev pub execute : Statement → Action (Unit {0})
  execute st s = (if fails st then err failed else ok tt, s)

  -- `getRow` and `getRowTx`
  abbrev pub get_row : String → String → Action Row
  get_row host_id event_id = do
    execute select_row
    λ s. elim (find (is_row host_id event_id) s.rows) [
      | none ↦ (err not_found, s)
      | some r ↦ (ok r, s)
    ]

  -- The primary key and the check on the status.
  abbrev pub insert : Row → Action (Unit {0})
  insert row = do
    execute insert_row
    λ s.
        (if any (is_row row.host_id row.event_id) s.rows || not (is_valid row.status)
            then raise failed
            else modify (λ s'. record s' { rows = s'.rows ++ (row ∷ []) }))
          s

  abbrev pub update : Row → Action (Unit {0})
  update row = do
    execute update_row
    if not (is_valid row.status)
        then raise failed
        else modify (λ s. record s { rows = map (set_columns row) s.rows })

  abbrev pub append_log :
      String → String → String → Option String → Option String → ℕ → Action (Unit {0})
  append_log host_id event_id actor from to at = do
    execute insert_log
    modify (λ s. record s { log = s.log ++ (entry s host_id event_id actor from to at ∷ []) })

  -- The foreign key of the notes.
  abbrev pub insert_note_row : Note → Action (Unit {0})
  insert_note_row note = do
    execute insert_note
    λ s.
        (if not (any (is_row note.host_id note.event_id) s.rows)
            then raise failed
            else modify (λ s'. record s' { notes = s'.notes ++ (note ∷ []) }))
          s
