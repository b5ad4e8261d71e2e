-- ===== src/Server/Atomic.antt =====
-- `Upsert` of internal/triage/repo.go and the handlers of internal/api/v1/triage.go change their one
-- row, or nothing.
use sigil_manager.Prelude.{
  ℕ, String, true, false, Option, none, some, [], ◌∷◌, ◌≡◌, ◌⊎◌, refl, ◌∙◌, inl, inr, ◌==◌,
  string_eq, ◌&&◌, find,
}
use sigil_manager.Server.{Row, UpsertInput, Store, StoreError, is_row}
use sigil_manager.Server.Action.{Result, ok, err, Faults}
use sigil_manager.Server.Upsert.{upsert, new_row, updated_row}
use sigil_manager.Server.Effects.{upsert-ends}
use sigil_manager.Server.Tables.{
  find-set_columns, is_row_self, is_row-key, find-append_none, find-append_other, find-holds,
  find-set_columns_other,
}
use sigil_manager.Server.Handlers.{
  UpsertRequest, NoteRequest, is_replied, handle_triage_upsert, handle_triage_note,
}
use sigil_manager.Server.Replies.{handle_triage_upsert-ends, handle_triage_note-ends}

module _ (fails : Faults) (now : ℕ) (input : UpsertInput) (s : Store) where
  -- What the call has left, as it is seen at another key.
  abbrev Settled : String → String → Result Row × Store → Type 0
  Settled h e (r, s') =
      ((row : Row) × (r ≡ ok row)
        × (find (is_row input.host_id input.event_id) s'.rows ≡ some row)
        × (find (is_row h e) s'.rows ≡ find (is_row h e) s.rows)
        × (s'.notes ≡ s.notes))
      ⊎ ((x : StoreError) × (r ≡ err x) × (s' ≡ s))

  -- Wherever the database fails, an upsert that returns a row has left exactly that row at its key,
  -- and neither another row nor any note is another than before; an upsert that returns an error has
  -- left all three tables as they were.
  pub upsert-settles :
      (h e : String)
      → (input.host_id == h && input.event_id == e) ≡ false
      → let (r, s') = upsert fails now input s in
        ((row : Row) × (r ≡ ok row)
          × (find (is_row input.host_id input.event_id) s'.rows ≡ some row)
          × (find (is_row h e) s'.rows ≡ find (is_row h e) s.rows)
          × (s'.notes ≡ s.notes))
        ⊎ ((x : StoreError) × (r ≡ err x) × (s' ≡ s))
  upsert-settles h e other =
      upsert-ends now input (Settled h e) s fails (λ x. inr (x, refl, refl))
        (λ free right given.
          let row = new_row now input in
          inl (
            row,
            refl,
            find-append_none (is_row input.host_id input.event_id) s.rows (row ∷ []) free
                ∙ rw (is_row_self row) refl,
            find-append_other (is_row h e) s.rows row other,
            refl,
          ))
        λ old found right.
          let row = updated_row now input old in
          let (host, event) =
            is_row-key input.host_id input.event_id old
              (find-holds (is_row input.host_id input.event_id) s.rows old found) in
          inl (
            row,
            refl,
            rw (find-set_columns row input.host_id input.event_id s.rows, found, is_row_self old)
                refl,
            find-set_columns_other row h e s.rows (rw (host, event) other),
            refl,
          )

module _ (format : ℕ → String) (fails : Faults) (now : ℕ) (subject : String) where
  -- Whatever the body and wherever the database fails, a request to write a row or a note that is not
  -- answered with success has changed nothing in the tables.
  pub handle_triage-refused :
      (row_body : Option UpsertRequest) (note_body : Option NoteRequest) (s : Store)
      → let (row_reply, with_row) = handle_triage_upsert format fails now subject row_body s in
        let (note_reply, with_note) = handle_triage_note format fails now subject note_body s in
        ((is_replied row_reply ≡ true) ⊎ (with_row ≡ s))
        × ((is_replied note_reply ≡ true) ⊎ (with_note ≡ s))
  unfolding handle_triage_upsert handle_triage_note
  handle_triage-refused row_body note_body s = (of_row row_body, of_note note_body)
    where
      of_row :
          (body : Option UpsertRequest)
          → let (r, s') = handle_triage_upsert format fails now subject body s in
            (is_replied r ≡ true) ⊎ (s' ≡ s)
      of_row none = inr refl
      of_row (some req) =
          handle_triage_upsert-ends format fails now subject
            (λ x. (is_replied x.0 ≡ true) ⊎ (x.1 ≡ s)) req s (λ status code. inr refl)
            (λ free right given. inl refl) λ row found right. inl refl

      of_note :
          (body : Option NoteRequest)
          → let (r, s') = handle_triage_note format fails now subject body s in
            (is_replied r ≡ true) ⊎ (s' ≡ s)
      of_note none = inr refl
      of_note (some req) =
          handle_triage_note-ends format fails now subject
            (λ x. (is_replied x.0 ≡ true) ⊎ (x.1 ≡ s)) req s (λ status code. inr refl)
            λ row found. inl refl
