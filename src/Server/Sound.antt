-- ===== src/Server/Sound.antt =====
-- What the tables of internal/triage/schema.go hold between two calls of internal/triage/repo.go.
use sigil_manager.Prelude.{
  ℕ, ◌≤◌, String, Bool, true, false, Option, none, some, List, [], ◌∷◌, ◌++◌, ◌≡◌, ◌≢◌, refl, sym,
  ap, ◌∙◌, inl, inr, arith, if◌then◌else◌, ◌==◌, string_eq, eq_iff, map, length, filter, find, any,
  All, All-append, Bool-cases,
}
use sigil_manager.Server.{
  Row, Note, LogEntry, UpsertInput, Store, empty_store, is_row, is_entry, is_valid,
}
use sigil_manager.Server.Action.{set_columns, entry}
use sigil_manager.Server.Upsert.{new_row, updated_row, is_transition}
use sigil_manager.Server.Effects.{inserted, updated}
use sigil_manager.Server.Chain.{Chain, Chain-entry}
use sigil_manager.Server.Tables.{
  find-append_none, find-append_other, filter-append_other, filter-append_one, filter-nil,
  find-holds, any-append_left, when_some, All-mono, is_row-key, is_row_self, find-set_columns_other,
  find-set_columns, any-set_columns, filter-set_columns,
}

-- The status of the row with a key, where there is one.
abbrev pub status_at : String → String → Store → Option String
status_at h e s = when_some (λ r. r.status) (find (is_row h e) s.rows)

abbrev pub is_placed : Store → Note → Bool
is_placed s n = any (is_row n.host_id n.event_id) s.rows

pub record IsSound (s : Store) : Type 0 where
  -- no key has two rows
  pub single : (h e : String) → length (filter (is_row h e) s.rows) ≤ 1
  -- every status is one of the four
  pub valid : All (λ r. is_valid r.status ≡ true) s.rows
  -- every row keeps the evidence that it was opened with
  pub kept : All (λ r. (r.evidence_snapshot == "") ≡ false) s.rows
  -- every note is on a row
  pub placed : All (λ n. is_placed s n ≡ true) s.notes
  -- the log of every key leads from no row to the status of its row
  pub told : (h e : String) → Chain none (filter (is_entry h e) s.log) (status_at h e s)

pub empty-IsSound : IsSound empty_store
empty-IsSound = record {
  single = λ h e. omega arith;
  valid = tt;
  kept = tt;
  placed = tt;
  told = λ h e. refl;
}

module _ (now : ℕ) (input : UpsertInput) (s : Store) (sound : IsSound s) where
  module _ (free : find (is_row input.host_id input.event_id) s.rows ≡ none)
      (right : is_valid (new_row now input).status ≡ true)
      (given : (input.evidence_snapshot == "") ≡ false) where
    abbrev added : Row
    added = new_row now input

    inserted-single : (h e : String) → length (filter (is_row h e) (inserted now input s).rows) ≤ 1
    inserted-single h e = elim (Bool-cases (is_row h e added)) [
      | inl here ↦
          let (host, event) = is_row-key h e added here in
          rw
            (
              filter-append_one (is_row h e) s.rows added here,
              filter-nil (is_row h e) s.rows (rw (host, event) at free),
            )
            (omega arith)
      | inr other ↦ rw (filter-append_other (is_row h e) s.rows added other) (sound.single h e)
    ]

    inserted-told :
        (h e : String)
        → let s' = inserted now input s in
          Chain none (filter (is_entry h e) s'.log) (status_at h e s')
    inserted-told h e =
        Chain-entry (is_entry h e) s.log
          (entry s input.host_id input.event_id input.actor none (some added.status) now)
          (status_at h e s) (status_at h e (inserted now input s)) (sound.told h e)
          (λ here.
            let (host, event) = is_row-key h e added here in
            let none_before : find (is_row h e) s.rows ≡ none = rw (host, event) at free in
            (
              sym (ap (when_some (λ r. r.status)) none_before),
              rw none_before (λ clash. cc),
              rw (find-append_none (is_row h e) s.rows (added ∷ []) none_before, here) refl,
            ))
          λ other.
            ap (when_some (λ r. r.status)) (find-append_other (is_row h e) s.rows added other)

    pub inserted-IsSound : IsSound (inserted now input s)
    inserted-IsSound = record {
      single = inserted-single;
      valid =
          All-append (λ r. is_valid r.status ≡ true) s.rows (added ∷ []) sound.valid (right, tt);
      kept =
          All-append (λ r. (r.evidence_snapshot == "") ≡ false) s.rows (added ∷ []) sound.kept
            (given, tt);
      placed =
          All-mono (λ n. is_placed s n ≡ true) (λ n. is_placed (inserted now input s) n ≡ true)
            s.notes
            (λ n there. any-append_left (is_row n.host_id n.event_id) s.rows (added ∷ []) there)
            sound.placed;
      told = inserted-told;
    }

  module _ (old : Row) (found : find (is_row input.host_id input.event_id) s.rows ≡ some old)
      (right : is_valid (updated_row now input old).status ≡ true) where
    abbrev moved : Row
    moved = updated_row now input old

    -- The write leaves alone what it does not set.
    All-set_columns :
        (P : Row → Type 0) (rows : List Row)
        → ((r : Row) → P r → P (set_columns moved r))
        → All P rows
        → All P (map (set_columns moved) rows)
    All-set_columns P [] f h = tt
    All-set_columns P (r ∷ rows) f h = (f r h.0, All-set_columns P rows f h.1)

    updated-valid :
        (r : Row) → is_valid r.status ≡ true → is_valid (set_columns moved r).status ≡ true
    updated-valid r v = elim (Bool-cases (is_row moved.host_id moved.event_id r)) [
      | inl here ↦ rw here right
      | inr other ↦ rw other v
    ]

    updated-kept :
        (r : Row)
        → (r.evidence_snapshot == "") ≡ false
        → ((set_columns moved r).evidence_snapshot == "") ≡ false
    updated-kept r k = elim (Bool-cases (is_row moved.host_id moved.event_id r)) [
      | inl here ↦ rw here k
      | inr other ↦ rw other k
    ]

    -- The row is found where its own key is looked for.
    found_self : (h e : String) → is_row h e old ≡ true → find (is_row h e) s.rows ≡ some old
    found_self h e here =
        let (host, event) = is_row-key h e old here in
        let (host', event') =
          is_row-key input.host_id input.event_id old
            (find-holds (is_row input.host_id input.event_id) s.rows old found) in
        rw (sym host' ∙ host, sym event' ∙ event) at found

    status_at-updated_here :
        (h e : String)
        → is_row h e old ≡ true
        → status_at h e (updated now input old s) ≡ some moved.status
    status_at-updated_here h e here =
        rw (find-set_columns moved h e s.rows, found_self h e here, is_row_self old) refl

    status_at-updated_other :
        (h e : String)
        → is_row h e old ≡ false
        → status_at h e (updated now input old s) ≡ status_at h e s
    status_at-updated_other h e other =
        ap (when_some (λ r. r.status)) (find-set_columns_other moved h e s.rows other)

    -- Without a transition no status changes.
    status_at-updated_still :
        is_transition input old ≡ false
        → (h e : String) → status_at h e (updated now input old s) ≡ status_at h e s
    status_at-updated_still still h e = elim (Bool-cases (is_row h e old)) [
      | inl here ↦ status_at-updated_here h e here ∙ rw (still, found_self h e here) refl
      | inr other ↦ status_at-updated_other h e other
    ]

    abbrev transition : LogEntry
    transition =
        entry s moved.host_id moved.event_id input.actor (some old.status) (some moved.status) now

    is_change : is_transition input old ≡ true → moved.status ≢ old.status
    is_change moving = λ same. ground (arith, eq_iff input.status old.status)

    updated-told :
        (b : Bool)
        → is_transition input old ≡ b
        → (h e : String)
        → Chain none
            (filter (is_entry h e) (if b then s.log ++ (transition ∷ []) else s.log))
            (status_at h e (updated now input old s))
    updated-told true moving h e =
        Chain-entry (is_entry h e) s.log transition (status_at h e s)
          (status_at h e (updated now input old s)) (sound.told h e)
          (λ here.
            let before : status_at h e s ≡ some old.status =
              ap (when_some (λ r. r.status)) (found_self h e here) in
            (
              sym before,
              rw before (λ same. is_change moving (ground arith)),
              status_at-updated_here h e here,
            ))
          (status_at-updated_other h e)
    updated-told false still h e = rw (status_at-updated_still still h e) (sound.told h e)

    pub updated-IsSound : IsSound (updated now input old s)
    updated-IsSound = record {
      single = λ h e. rw (filter-set_columns moved h e s.rows) (sound.single h e);
      valid = All-set_columns (λ r. is_valid r.status ≡ true) s.rows updated-valid sound.valid;
      kept =
          All-set_columns (λ r. (r.evidence_snapshot == "") ≡ false) s.rows updated-kept sound.kept;
      placed =
          All-mono (λ n. is_placed s n ≡ true) (λ n. is_placed (updated now input old s) n ≡ true)
            s.notes (λ n there. any-set_columns moved n.host_id n.event_id s.rows ∙ there)
            sound.placed;
      told = updated-told (is_transition input old) refl;
    }

-- A note on a row keeps the tables sound.
pub noted-IsSound :
    (s : Store) (n : Note)
    → IsSound s
    → is_placed s n ≡ true
    → IsSound (record s { notes = s.notes ++ (n ∷ []) })
noted-IsSound s n sound there = record {
  single = sound.single;
  valid = sound.valid;
  kept = sound.kept;
  placed = All-append (λ m. is_placed s m ≡ true) s.notes (n ∷ []) sound.placed (there, tt);
  told = sound.told;
}
