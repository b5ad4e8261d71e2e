-- ===== src/Server/Replies.antt =====
-- How the handlers of internal/api/v1/triage.go can answer, a rule for each that writes.
use sigil_manager.Prelude.{
  ℕ, String, Bool, true, false, some, [], ◌∷◌, ◌++◌, ◌≡◌, if◌then◌else◌, ◌==◌, string_eq, ◌&&◌,
  ◌||◌, not, find,
}
use sigil_manager.Server.{
  Row, Store, StoreError, not_found, invalid_status, missing_fields, failed, is_row, is_valid,
}
use sigil_manager.Server.Action.{Faults}
use sigil_manager.Server.Effects.{upsert-ends, OnInsert, OnUpdate}
use sigil_manager.Server.Notes.{new_note, append_note-ends}
use sigil_manager.Server.Handlers.{
  UpsertRequest, RowResponse, NoteRequest, NoteResponse, Reply, replied, refused, map_triage_err,
  reply_of, upsert_input, row_to_response, note_to_response, handle_triage_upsert,
  handle_triage_note,
}

module _ {A : Type 0} (Q : Reply A × Store → Type 0) (s : Store) where
  -- Every refusal leaves the store as it is.
  abbrev pub OnRefusal : Type 0
  OnRefusal = (status : ℕ) (code : String) → Q (refused status code, s)

  guard-ends :
      (b : Bool) (r : Reply A × Store) (code : String) (status : ℕ)
      → OnRefusal
      → Q r
      → Q (if b then (refused status code, s) else r)
  guard-ends true r code status bad good = bad status code
  guard-ends false r code status bad good = good

  err-ends : OnRefusal → (e : StoreError) → Q (map_triage_err e, s)
  err-ends bad not_found = bad 404 "not_found"
  err-ends bad invalid_status = bad 400 "invalid_query"
  err-ends bad missing_fields = bad 400 "invalid_query"
  err-ends bad failed = bad 500 "internal"

module _ (format : ℕ → String) (fails : Faults) (now : ℕ) (subject : String) where
  pub handle_triage_upsert-ends :
      (Q : Reply RowResponse × Store → Type 0) (req : UpsertRequest) (s : Store)
      → OnRefusal Q s
      → OnInsert now (upsert_input subject req) (λ r. Q (reply_of (row_to_response format) r)) s
      → OnUpdate now (upsert_input subject req) (λ r. Q (reply_of (row_to_response format) r)) s
      → Q (handle_triage_upsert format fails now subject (some req) s)
  unfolding handle_triage_upsert
  handle_triage_upsert-ends Q req s bad on_insert on_update =
      let input = upsert_input subject req in
      guard-ends Q s (req.host_id == "" || req.event_id == "") _ "invalid_query" 400 bad (
        guard-ends Q s (not (req.status == "") && not (is_valid req.status)) _ "invalid_query" 400
          bad
          (upsert-ends now input (λ r. Q (reply_of (row_to_response format) r)) s fails
            (err-ends Q s bad) on_insert on_update))

  pub handle_triage_note-ends :
      (Q : Reply NoteResponse × Store → Type 0) (req : NoteRequest) (s : Store)
      → OnRefusal Q s
      → ((row : Row)
          → find (is_row req.host_id req.event_id) s.rows ≡ some row
          → let note = new_note now req.host_id req.event_id subject req.body s in
            Q (replied (note_to_response format note), record s { notes = s.notes ++ (note ∷ []) }))
      → Q (handle_triage_note format fails now subject (some req) s)
  unfolding handle_triage_note
  handle_triage_note-ends Q req s bad good =
      guard-ends Q s (req.host_id == "" || req.event_id == "" || req.body == "") _ "invalid_query"
        400 bad
        (append_note-ends fails (λ r. Q (reply_of (note_to_response format) r)) now req.host_id
          req.event_id subject req.body s (err-ends Q s bad) λ row found given. good row found)
