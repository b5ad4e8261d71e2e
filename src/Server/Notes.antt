-- ===== src/Server/Notes.antt =====
-- `GetByEventKey`, `AppendNote`, `ListNotes` and `ListLog` of internal/triage/repo.go.
use sigil_manager.Prelude.{
  ℕ, suc, String, Bool, List, [], ◌∷◌, ◌++◌, ◌≡◌, ◌∙◌, false, if◌then◌else◌, ◌==◌, string_eq, ◌||◌,
  find, filter, length, some,
}
use sigil_manager.Prelude.Sort.{sort}
use sigil_manager.Server.{
  Row, Note, LogEntry, Store, StoreError, missing_fields, failed, is_row, is_note, is_entry,
}
use sigil_manager.Server.Action.{
  Result, ok, err, Action, raise, pure, ◌>>=◌, ◌>>◌, Faults, execute, select_row, select_notes,
  select_log, get_row, insert_note_row,
}
use sigil_manager.Server.Timed.{after}
use sigil_manager.Server.Ends.{
  if-ends, get_row-ends, insert_note_row-ends, execute-done, get_row-found,
}

-- `ORDER BY created_at ASC, id ASC`
abbrev pub note_after : Note → Note → Bool
note_after = after (λ n. n.created_at) (λ n. n.id)

-- `ORDER BY at ASC, id ASC`
abbrev pub entry_after : LogEntry → LogEntry → Bool
entry_after = after (λ l. l.at) (λ l. l.id)

abbrev notes_of : String → String → Action (List Note)
notes_of host_id event_id s = (ok (sort note_after (filter (is_note host_id event_id) s.notes)), s)

abbrev log_of : String → String → Action (List LogEntry)
log_of host_id event_id s = (ok (sort entry_after (filter (is_entry host_id event_id) s.log)), s)

abbrev pub new_note : ℕ → String → String → String → String → Store → Note
new_note now host_id event_id author body s = record {
  id = suc (length s.notes);
  host_id = host_id;
  event_id = event_id;
  author = author;
  body = body;
  created_at = now;
}

module _ (fails : Faults) where
  unfoldable pub get_by_event_key : String → String → Action Row
  get_by_event_key host_id event_id = get_row fails host_id event_id

  abbrev pub write_note : ℕ → String → String → String → String → Action Note
  write_note now host_id event_id author body s =
      let note = new_note now host_id event_id author body s in
      (insert_note_row fails note >> pure note) s

  unfoldable pub append_note : ℕ → String → String → String → String → Action Note
  unfolding get_by_event_key
  append_note now host_id event_id author body =
      if host_id == "" || event_id == "" || author == "" || body == ""
      then raise missing_fields
      else (do row ← get_by_event_key host_id event_id; write_note now host_id event_id author body)

  unfoldable pub list_notes : String → String → Action (List Note)
  unfolding get_by_event_key
  list_notes host_id event_id = do
    row ← get_by_event_key host_id event_id
    execute fails select_notes
    notes_of host_id event_id

  unfoldable pub list_log : String → String → Action (List LogEntry)
  unfolding get_by_event_key
  list_log host_id event_id = do
    row ← get_by_event_key host_id event_id
    execute fails select_log
    log_of host_id event_id

  module _ (Q : Result Note × Store → Type 0) (now : ℕ) (host_id event_id author body : String)
      (s : Store) where
    pub append_note-ends :
        ((e : StoreError) → Q (err e, s))
        → ((row : Row)
            → find (is_row host_id event_id) s.rows ≡ some row
            → (host_id == "" || event_id == "" || author == "" || body == "") ≡ false
            → let note = new_note now host_id event_id author body s in
              Q (ok note, record s { notes = s.notes ++ (note ∷ []) }))
        → Q (append_note now host_id event_id author body s)
    unfolding append_note get_by_event_key
    append_note-ends bad good =
        let note = new_note now host_id event_id author body s in
        let write : Row → Action Note = λ row. write_note now host_id event_id author body in
        if-ends Q (host_id == "" || event_id == "" || author == "" || body == "")
          (raise missing_fields) (get_by_event_key host_id event_id >>= write) s
          (λ missing. bad missing_fields)
          λ given. get_row-ends Q fails host_id event_id write s bad λ row found.
            insert_note_row-ends Q fails note (pure note) s (bad failed)
              λ there. good row found given

  module _ (host_id event_id : String) (row : Row) (s : Store) where
    -- The list as the database returns it.
    pub list_log-found :
        fails select_row ≡ false
        → fails select_log ≡ false
        → find (is_row host_id event_id) s.rows ≡ some row
        → list_log host_id event_id s
          ≡ (ok (sort entry_after (filter (is_entry host_id event_id) s.log)), s)
    unfolding list_log get_by_event_key
    list_log-found reads lists found =
        get_row-found fails host_id event_id row
          (λ r. execute fails select_log >> log_of host_id event_id) s reads found
        ∙ execute-done fails select_log (log_of host_id event_id) s lists

    pub list_notes-found :
        fails select_row ≡ false
        → fails select_notes ≡ false
        → find (is_row host_id event_id) s.rows ≡ some row
        → list_notes host_id event_id s
          ≡ (ok (sort note_after (filter (is_note host_id event_id) s.notes)), s)
    unfolding list_notes get_by_event_key
    list_notes-found reads lists found =
        get_row-found fails host_id event_id row
          (λ r. execute fails select_notes >> notes_of host_id event_id) s reads found
        ∙ execute-done fails select_notes (notes_of host_id event_id) s lists
