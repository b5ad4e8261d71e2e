-- ===== src/Server/Recall.antt =====
-- Notes that are appended and listed again, in internal/triage/repo.go.
use sigil_manager.Prelude.{
  ℕ, String, true, false, Option, none, some, List, [], ◌∷◌, ◌++◌, ◌≡◌, refl, sym, ap, ◌∙◌, ◌==◌,
  string_eq, ◌&&◌, ◌||◌, find, filter, arith, eq_refl, inl, inr, Option-cases,
}
use sigil_manager.Prelude.Sort.{sort}
use sigil_manager.Server.{Row, Note, Store, not_found, empty_store, is_row, is_note}
use sigil_manager.Server.Action.{Result, ok, err}
use sigil_manager.Server.Healthy.{no_faults, append_note-ok}
use sigil_manager.Server.Notes.{
  append_note, new_note, list_notes, list_notes-found, get_by_event_key, note_after,
}
use sigil_manager.Server.Tables.{filter-append_one, filter-append_other}
use sigil_manager.Server.Timed.{IsTimed, sort-filter_timed, IsTimed-append}
use sigil_manager.Server.Runs.{Turn, after_turns}
use sigil_manager.Server.History.{
  Rising, IsTimedStore, after_turns-IsTimedStore, empty-IsTimedStore,
}

-- The answer of `ListNotes`, by the row and the notes of its key.
abbrev notes_reply : Option Row → List Note → Result (List Note)
notes_reply none notes = err not_found
notes_reply (some row) notes = ok (sort note_after notes)

list_notes-reply :
    (h e : String) (s : Store)
    → (list_notes no_faults h e s).0
      ≡ notes_reply (find (is_row h e) s.rows) (filter (is_note h e) s.notes)
unfolding list_notes get_by_event_key
list_notes-reply h e s = elim (Option-cases (find (is_row h e) s.rows)) [
  | inl free ↦ rw free refl
  | inr (row, found) ↦
      ap (λ r. r.0) (list_notes-found no_faults h e row s refl refl found)
      ∙ ap (λ o. notes_reply o (filter (is_note h e) s.notes)) (sym found)
]

module _ (turns : List Turn) (now : ℕ) (rising : Rising 0 turns now)
    (host_id event_id author body : String) (row : Row)
    (given : (host_id == "" || event_id == "" || author == "" || body == "") ≡ false) where
  -- At a time that is not before the last call, a note on a row that is there is appended to what
  -- `ListNotes` returns for its alert, and what it returns for any other alert stays, where the
  -- database does not fail at these calls, wherever it failed before.
  pub append_note-listed :
      (h e : String)
      → (host_id == h && event_id == e) ≡ false
      → find (is_row host_id event_id) (after_turns turns empty_store).rows ≡ some row
      → let s = after_turns turns empty_store in
        let note = new_note now host_id event_id author body s in
        let (r, s') = append_note no_faults now host_id event_id author body s in
        (r ≡ ok note)
        × ((old : List Note) × ((list_notes no_faults host_id event_id s).0 ≡ ok old)
            × ((list_notes no_faults host_id event_id s').0 ≡ ok (old ++ (note ∷ []))))
        × ((list_notes no_faults h e s').0 ≡ (list_notes no_faults h e s).0)
  append_note-listed h e other found =
      let s = after_turns turns empty_store in
      let note = new_note now host_id event_id author body s in
      let s' : Store = record s { notes = s.notes ++ (note ∷ []) } in
      let own : is_note host_id event_id note ≡ true =
        ground (arith, eq_refl host_id, eq_refl event_id) in
      let before : IsTimedStore now s =
        after_turns-IsTimedStore turns 0 now empty_store rising empty-IsTimedStore in
      let after : IsTimed (λ n. n.created_at) (λ n. n.id) now s'.notes =
        IsTimed-append (λ n. n.created_at) (λ n. n.id) now now s.notes note (omega arith)
          before.timed_notes refl refl in
      rw (append_note-ok now host_id event_id author body row s given found) (
        refl,
        (
          filter (is_note host_id event_id) s.notes,
          list_notes-reply host_id event_id s
              ∙ rw found (
                  ap ok (
                    sort-filter_timed (λ n. n.created_at) (λ n. n.id) now s.notes
                      (is_note host_id event_id) before.timed_notes)),
          list_notes-reply host_id event_id s'
              ∙ rw found (
                  ap ok (
                    sort-filter_timed (λ n. n.created_at) (λ n. n.id) now s'.notes
                      (is_note host_id event_id) after
                    ∙ filter-append_one (is_note host_id event_id) s.notes note own)),
        ),
        list_notes-reply h e s'
            ∙ ap (notes_reply (find (is_row h e) s.rows))
                (filter-append_other (is_note h e) s.notes note other)
            ∙ sym (list_notes-reply h e s),
      )
