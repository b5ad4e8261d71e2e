-- ===== src/Server/Reading.antt =====
-- The detail of a row that is there, in internal/api/v1/triage.go, where the database does not fail.
use sigil_manager.Prelude.{
  ℕ, String, false, some, List, ◌≡◌, refl, ap, ◌∙◌, map, filter, find, ◌==◌, string_eq, ◌||◌,
}
use sigil_manager.Prelude.Sort.{sort}
use sigil_manager.Server.{Row, Note, LogEntry, Store, is_row, is_note, is_entry}
use sigil_manager.Server.Action.{ok, err, Action, ◌>>=◌, pure}
use sigil_manager.Server.Ends.{get_row-found}
use sigil_manager.Server.Healthy.{no_faults}
use sigil_manager.Server.Notes.{
  get_by_event_key, list_notes, list_log, note_after, entry_after, list_notes-found, list_log-found,
}
use sigil_manager.Server.Handlers.{
  GetResponse, replied, reply_of, handle_triage_get, row_to_response, note_to_response,
  entry_to_response,
}

bind-ok :
    {A B : Type 0} (m : Action A) (f : A → Action B) (s s' : Store) (a : A)
    → m s ≡ (ok a, s')
    → (m >>= f) s ≡ f a s'
bind-ok m f s s' a e = ap (λ r. elim r.0 [ ok x ↦ f x r.1 | err x ↦ (err x, r.1) ]) e

module _ (format : ℕ → String) (h e : String) (row : Row) (s : Store) where
  abbrev kept_notes : List Note
  kept_notes = sort note_after (filter (is_note h e) s.notes)

  abbrev kept_log : List LogEntry
  kept_log = sort entry_after (filter (is_entry h e) s.log)

  -- The row, its notes and its log.
  abbrev pub detail_of : GetResponse
  detail_of = record {
    row = row_to_response format row;
    notes = map (note_to_response format) kept_notes;
    log = map (entry_to_response format) kept_log;
  }

  pub handle_triage_get-found :
      (h == "" || e == "") ≡ false
      → find (is_row h e) s.rows ≡ some row
      → handle_triage_get format no_faults h e s ≡ (replied detail_of, s)
  unfolding handle_triage_get get_by_event_key
  handle_triage_get-found addressed found =
      let reply : Row → List Note → List LogEntry → Action GetResponse = λ row notes log.
        pure (record {
          row = row_to_response format row;
          notes = map (note_to_response format) notes;
          log = map (entry_to_response format) log;
        }) in
      let with_log : Row → List Note → Action GetResponse =
        λ row notes. list_log no_faults h e >>= λ log. reply row notes log in
      let with_notes : Row → Action GetResponse =
        λ row. list_notes no_faults h e >>= λ notes. with_log row notes in
      rw addressed (
        ap (reply_of (λ found. found)) (
          get_row-found no_faults h e row with_notes s refl found
          ∙ bind-ok (list_notes no_faults h e) (with_log row) s s kept_notes
              (list_notes-found no_faults h e row s refl refl found)
          ∙ bind-ok (list_log no_faults h e) (reply row kept_notes) s s kept_log
              (list_log-found no_faults h e row s refl refl found)))
