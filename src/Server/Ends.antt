-- ===== src/Server/Ends.antt =====
-- How an action can end, a rule for each statement of internal/triage/repo.go: to show `Q` of the
-- result and the store, show it of each way to end.
use sigil_manager.Prelude.{
  ℕ, String, Bool, true, false, Option, none, some, ◌≡◌, refl, ap, if◌then◌else◌, not, ◌||◌, map,
  [], ◌∷◌, ◌++◌, find, any, arith,
}
use sigil_manager.Server.{Row, Note, Store, StoreError, failed, not_found, is_row, is_valid}
use sigil_manager.Server.Action.{
  Result, ok, err, Action, raise, pure, modify, ◌>>=◌, ◌>>◌, transaction, Statement, Faults,
  execute, get_row, insert, update, set_columns, entry, append_log, insert_row, update_row,
  insert_log, select_row, insert_note_row, insert_note,
}

module _ {A : Type 0} (Q : Result A × Store → Type 0) where
  -- What has to hold before the rollback: the store of an error is `s` again.
  abbrev pub Rolled : Store → Result A × Store → Type 0
  Rolled s (ok a, s') = Q (ok a, s')
  Rolled s (err e, _) = Q (err e, s)

  rolled : (s s' : Store) (r : Result A) → Rolled s (r, s') → Q (transaction (λ _. (r, s')) s)
  rolled s s' (ok a) h = h
  rolled s s' (err e) h = h

  pub transaction-ends : (m : Action A) (s : Store) → Rolled s (m s) → Q (transaction m s)
  transaction-ends m s h = let (r, s') = m s in rolled s s' r h

  pub if-ends :
      (b : Bool) (m n : Action A) (s : Store)
      → (b ≡ true → Q (m s))
      → (b ≡ false → Q (n s))
      → Q ((if b then m else n) s)
  if-ends true m n s h k = h refl
  if-ends false m n s h k = k refl

  unless :
      (b : Bool) (k : Action A) (s : Store)
      → Q (err failed, s)
      → Q (k s)
      → Q (((λ s'. (if b then err failed else ok tt, s')) >> k) s)
  unless true k s bad good = bad
  unless false k s bad good = good

  -- A statement that may fail, then a constraint that may not hold, then the write.
  guarded :
      (b c : Bool) (f : Store → Store) (k : Action A) (s : Store)
      → Q (err failed, s)
      → (c ≡ false → Q (k (f s)))
      → Q (
          (((λ s'. (if b then err failed else ok tt, s')) >> λ s'.
          (if c then raise failed else modify f) s')
              >> k)
            s)
  guarded true c f k s bad good = bad
  guarded false true f k s bad good = bad
  guarded false false f k s bad good = good refl

  found :
      (b : Bool) (o : Option Row) (k : Row → Action A) (s : Store)
      → ((e : StoreError) → Q (err e, s))
      → ((row : Row) → o ≡ some row → Q (k row s))
      → Q (
          (((λ s'. (if b then err failed else ok tt, s')) >> λ s'. elim o [
            | none ↦ (err not_found, s')
            | some r ↦ (ok r, s')
          ])
              >>= k)
            s)
  found true o k s bad good = bad failed
  found false none k s bad good = bad not_found
  found false (some row) k s bad good = good row refl

  module _ (fails : Faults) where
    pub execute-ends :
        (st : Statement) (k : Action A) (s : Store)
        → Q (err failed, s)
        → Q (k s)
        → Q ((execute fails st >> k) s)
    execute-ends st k s bad good = unless (fails st) k s bad good

    pub insert-ends :
        (row : Row) (k : Action A) (s : Store)
        → Q (err failed, s)
        → (any (is_row row.host_id row.event_id) s.rows ≡ false
            → is_valid row.status ≡ true
            → Q (k (record s { rows = s.rows ++ (row ∷ []) })))
        → Q ((insert fails row >> k) s)
    insert-ends row k s bad good =
        let taken = any (is_row row.host_id row.event_id) s.rows in
        guarded (fails insert_row) (taken || not (is_valid row.status))
          (λ s'. record s' { rows = s'.rows ++ (row ∷ []) }) k s bad
          λ e. good (ground arith) (ground arith)

    pub update-ends :
        (row : Row) (k : Action A) (s : Store)
        → Q (err failed, s)
        → (is_valid row.status ≡ true → Q (k (record s { rows = map (set_columns row) s.rows })))
        → Q ((update fails row >> k) s)
    update-ends row k s bad good =
        guarded (fails update_row) (not (is_valid row.status))
          (λ s'. record s' { rows = map (set_columns row) s'.rows }) k s bad
          λ e. good (ground arith)

    pub append_log-ends :
        (host_id event_id actor : String) (from to : Option String) (at : ℕ) (k : Action A)
        (s : Store)
        → Q (err failed, s)
        → Q (k (record s { log = s.log ++ (entry s host_id event_id actor from to at ∷ []) }))
        → Q ((append_log fails host_id event_id actor from to at >> k) s)
    append_log-ends host_id event_id actor from to at k s bad good =
        guarded (fails insert_log) false
          (λ s'. record s' { log = s'.log ++ (entry s' host_id event_id actor from to at ∷ []) }) k
          s bad λ e. good

    -- An entry that is appended on a condition.
    pub append_log_if-ends :
        (b : Bool) (host_id event_id actor : String) (from to : Option String) (at : ℕ)
        (k : Action A) (s : Store)
        → Q (err failed, s)
        → Q (
            k (record s {
              log = if b then s.log ++ (entry s host_id event_id actor from to at ∷ []) else s.log;
            }))
        → Q (((if b then append_log fails host_id event_id actor from to at else pure tt) >> k) s)
    append_log_if-ends true host_id event_id actor from to at k s bad good =
        append_log-ends host_id event_id actor from to at k s bad good
    append_log_if-ends false host_id event_id actor from to at k s bad good = good

    pub insert_note_row-ends :
        (note : Note) (k : Action A) (s : Store)
        → Q (err failed, s)
        → (any (is_row note.host_id note.event_id) s.rows ≡ true
            → Q (k (record s { notes = s.notes ++ (note ∷ []) })))
        → Q ((insert_note_row fails note >> k) s)
    insert_note_row-ends note k s bad good =
        guarded (fails insert_note) (not (any (is_row note.host_id note.event_id) s.rows))
          (λ s'. record s' { notes = s'.notes ++ (note ∷ []) }) k s bad λ e. good (ground arith)

    -- A read of one row.
    pub get_row-ends :
        (host_id event_id : String) (k : Row → Action A) (s : Store)
        → ((e : StoreError) → Q (err e, s))
        → ((row : Row) → find (is_row host_id event_id) s.rows ≡ some row → Q (k row s))
        → Q ((get_row fails host_id event_id >>= k) s)
    get_row-ends host_id event_id k s bad good =
        found (fails select_row) (find (is_row host_id event_id) s.rows) k s bad good

-- Where the database does not fail, a statement is executed, and a row that is there is read.
module _ {A : Type 0} (fails : Faults) where
  done :
      (b : Bool) (k : Action A) (s : Store)
      → b ≡ false
      → ((λ s'. (if b then err failed else ok tt, s')) >> k) s ≡ k s
  done true k s h = absurd (ground arith)
  done false k s h = refl

  pub execute-done :
      (st : Statement) (k : Action A) (s : Store)
      → fails st ≡ false
      → (execute fails st >> k) s ≡ k s
  execute-done st k s h = done (fails st) k s h

  read :
      (b : Bool) (o : Option Row) (row : Row) (k : Row → Action A) (s : Store)
      → b ≡ false
      → o ≡ some row
      → (((λ s'. (if b then err failed else ok tt, s')) >> λ s'. elim o [
        | none ↦ (err not_found, s')
        | some r ↦ (ok r, s')
      ])
            >>= k)
          s
        ≡ k row s
  read true o row k s h f = absurd (ground arith)
  read false none row k s h f = absurd cc
  read false (some r) row k s h f = let same : r ≡ row = cc in ap (λ x. k x s) same

  pub get_row-found :
      (host_id event_id : String) (row : Row) (k : Row → Action A) (s : Store)
      → fails select_row ≡ false
      → find (is_row host_id event_id) s.rows ≡ some row
      → (get_row fails host_id event_id >>= k) s ≡ k row s
  get_row-found host_id event_id row k s h f =
      read (fails select_row) (find (is_row host_id event_id) s.rows) row k s h f
