-- ===== src/Server/Healthy.antt =====
-- Calls of internal/triage/repo.go on a database that does not fail.
use sigil_manager.Prelude.{
  ℕ, String, Bool, true, false, Option, none, some, List, [], ◌∷◌, ◌++◌, ◌≡◌, refl, ap, ◌∙◌, inl,
  inr, arith, Bool-cases, if◌then◌else◌, ◌==◌, string_eq, ◌&&◌, ◌||◌, not, find, any,
}
use sigil_manager.Server.{Row, UpsertInput, Store, not_found, failed, is_row, is_valid}
use sigil_manager.Server.Action.{
  ok, err, Action, Faults, ◌>>=◌, ◌>>◌, transaction, pure, raise, modify, execute, begin, get_row,
}
use sigil_manager.Server.Upsert.{
  upsert, new_row, updated_row, is_transition, unless_missing, insert_path, update_path,
}
use sigil_manager.Server.Effects.{inserted, updated}
use sigil_manager.Server.Ends.{get_row-found}
use sigil_manager.Server.Tables.{any-find}
use sigil_manager.Server.Notes.{append_note, write_note, new_note, get_by_event_key}

abbrev pub no_faults : Faults
no_faults st = false

pub any-none : (p : Row → Bool) (xs : List Row) → find p xs ≡ none → any p xs ≡ false
any-none p [] h = refl
any-none p (x ∷ xs) h = ground (arith, any-none p xs)

transaction-done :
    {A : Type 0} (m : Action A) (s : Store) (a : A) (s' : Store)
    → m s ≡ (ok a, s')
    → transaction m s ≡ (ok a, s')
transaction-done m s a s' e = ap (λ r. elim r.0 [ ok x ↦ (ok x, r.1) | err x ↦ (err x, s) ]) e

module _ (now : ℕ) (input : UpsertInput) (s : Store) where
  insert_path-ok :
      any (is_row input.host_id input.event_id) s.rows ≡ false
      → is_valid (new_row now input).status ≡ true
      → (input.evidence_snapshot == "") ≡ false
      → insert_path no_faults now input s ≡ (ok (new_row now input), inserted now input s)
  insert_path-ok free right given = ground arith

  update_path-ok :
      (row : Row)
      → is_valid (updated_row now input row).status ≡ true
      → update_path no_faults now input row s
        ≡ (ok (updated_row now input row), updated now input row s)
  update_path-ok row right = elim (Bool-cases (is_transition input row)) [
    | inl moving ↦ ground (arith, moving, right)
    | inr still ↦ ground (arith, still, right)
  ]

  -- The fields that every call has to have, and a status that is one of the four or left out.
  abbrev pub IsNamed : Type 0
  IsNamed =
      ((input.host_id == "" || input.event_id == "" || input.actor == "") ≡ false)
      × ((not (input.status == "") && not (is_valid input.status)) ≡ false)

  abbrev path : Option Row → Action Row
  path existing = elim existing [
    | none ↦ insert_path no_faults now input
    | some row ↦ update_path no_faults now input row
  ]

  branch :
      (o : Option Row)
      → (unless_missing (
              (λ s'. (ok tt, s')) >> λ s'. elim o [
                | none ↦ (err not_found, s')
                | some r ↦ (ok r, s')
              ])
            >>= path)
          s
        ≡ path o s
  branch none = refl
  branch (some row) = refl

  upsert_by :
      (o : Option Row) (r : Row) (s' : Store)
      → IsNamed
      → find (is_row input.host_id input.event_id) s.rows ≡ o
      → path o s ≡ (ok r, s')
      → upsert no_faults now input s ≡ (ok r, s')
  unfolding upsert
  upsert_by o r s' (named, fine) found done =
      let ran =
        branch (find (is_row input.host_id input.event_id) s.rows)
        ∙ ap (λ q. path q s) found
        ∙ done in
      let inside : Action Row =
        execute no_faults begin
        >> (unless_missing (get_row no_faults input.host_id input.event_id) >>= path) in
      rw (named, fine) (transaction-done inside s r s' ran)

  pub upsert_existing :
      (row : Row)
      → IsNamed
      → find (is_row input.host_id input.event_id) s.rows ≡ some row
      → is_valid (updated_row now input row).status ≡ true
      → upsert no_faults now input s ≡ (ok (updated_row now input row), updated now input row s)
  upsert_existing row named found right =
      upsert_by (some row) (updated_row now input row) (updated now input row s) named found
        (update_path-ok row right)

  pub upsert_fresh :
      IsNamed
      → find (is_row input.host_id input.event_id) s.rows ≡ none
      → is_valid (new_row now input).status ≡ true
      → (input.evidence_snapshot == "") ≡ false
      → upsert no_faults now input s ≡ (ok (new_row now input), inserted now input s)
  upsert_fresh named free right given =
      upsert_by none (new_row now input) (inserted now input s) named free
        (insert_path-ok (any-none _ s.rows free) right given)

allowed :
    {A : Type 0} (c : Bool) (f : Store → Store) (k : Action A) (s : Store)
    → c ≡ true
    → ((if not c then raise failed else modify f) >> k) s ≡ k (f s)
allowed true f k s h = refl
allowed false f k s h = absurd (ground arith)

write_note-ok :
    (now : ℕ) (host_id event_id author body : String) (s : Store)
    → any (is_row host_id event_id) s.rows ≡ true
    → let note = new_note now host_id event_id author body s in
      write_note no_faults now host_id event_id author body s
      ≡ (ok note, record s { notes = s.notes ++ (note ∷ []) })
write_note-ok now host_id event_id author body s there =
    let note = new_note now host_id event_id author body s in
    allowed (any (is_row host_id event_id) s.rows)
      (λ s'. record s' { notes = s'.notes ++ (note ∷ []) }) (pure note) s there

pub append_note-ok :
    (now : ℕ) (host_id event_id author body : String) (row : Row) (s : Store)
    → (host_id == "" || event_id == "" || author == "" || body == "") ≡ false
    → find (is_row host_id event_id) s.rows ≡ some row
    → let note = new_note now host_id event_id author body s in
      append_note no_faults now host_id event_id author body s
      ≡ (ok note, record s { notes = s.notes ++ (note ∷ []) })
unfolding append_note get_by_event_key
append_note-ok now host_id event_id author body row s given found = rw given (
    get_row-found no_faults host_id event_id row
      (λ r. write_note no_faults now host_id event_id author body) s refl found
    ∙ write_note-ok now host_id event_id author body s
        (any-find (is_row host_id event_id) s.rows row found))
