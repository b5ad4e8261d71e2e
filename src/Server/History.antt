-- ===== src/Server/History.antt =====
-- What `ListLog` and `ListNotes` of internal/triage/repo.go return, where the clock never goes back.
use sigil_manager.Prelude.{
  ℕ, ◌≤◌, String, Bool, true, false, Option, none, some, List, [], ◌∷◌, ◌++◌, ◌≡◌, refl, ap, ◌∙◌,
  string_eq, if◌then◌else◌, find, filter,
}
use sigil_manager.Server.{Row, LogEntry, Store, empty_store, is_row, is_entry}
use sigil_manager.Server.Action.{ok, Faults, select_row, select_log, entry}
use sigil_manager.Server.Upsert.{is_transition}
use sigil_manager.Server.Effects.{upsert-ends}
use sigil_manager.Server.Notes.{append_note-ends, list_log, list_log-found}
use sigil_manager.Server.Chain.{Chain}
use sigil_manager.Server.Timed.{IsTimed, IsTimed-mono, IsTimed-append, sort-filter_timed}
use sigil_manager.Server.Runs.{
  Call, upserting, noting, Turn, after_call, after_turns, after_turns-IsSound,
}

-- The clock at each call, from one time to another.
abbrev pub Rising : ℕ → List Turn → ℕ → Type 0
Rising from [] to = from ≤ to
Rising from (t ∷ turns) to = (from ≤ t.now) × Rising t.now turns to

pub record IsTimedStore (latest : ℕ) (s : Store) : Type 0 where
  pub timed_log : IsTimed (λ l. l.at) (λ l. l.id) latest s.log
  pub timed_notes : IsTimed (λ n. n.created_at) (λ n. n.id) latest s.notes

IsTimedStore-mono :
    (latest now : ℕ) (s : Store) → latest ≤ now → IsTimedStore latest s → IsTimedStore now s
IsTimedStore-mono latest now s le t = record {
  timed_log = IsTimed-mono (λ l. l.at) (λ l. l.id) latest now s.log le t.timed_log;
  timed_notes = IsTimed-mono (λ n. n.created_at) (λ n. n.id) latest now s.notes le t.timed_notes;
}

module _ (latest now : ℕ) (s : Store) (le : latest ≤ now) (t : IsTimedStore latest s) where
  -- The log with one more entry at the time of the call.
  log-append :
      (h e actor : String) (from to : Option String)
      → IsTimed (λ l. l.at) (λ l. l.id) now (s.log ++ (entry s h e actor from to now ∷ []))
  log-append h e actor from to =
      IsTimed-append (λ l. l.at) (λ l. l.id) latest now s.log (entry s h e actor from to now) le
        t.timed_log refl refl

  log-append_if :
      (b : Bool) (h e actor : String) (from to : Option String)
      → IsTimed
          (λ l. l.at)
          (λ l. l.id)
          now
          (if b then s.log ++ (entry s h e actor from to now ∷ []) else s.log)
  log-append_if true h e actor from to = log-append h e actor from to
  log-append_if false h e actor from to = (IsTimedStore-mono latest now s le t).timed_log

  after_call-IsTimedStore :
      (faults : Faults) (call : Call) → IsTimedStore now (after_call faults now call s)
  unfolding after_call
  after_call-IsTimedStore faults (upserting input) =
      let same = IsTimedStore-mono latest now s le t in
      upsert-ends now input (λ r. IsTimedStore now r.1) s faults (λ e. same)
        (λ free right given. record {
          timed_log = log-append input.host_id input.event_id input.actor none _;
          timed_notes = same.timed_notes;
        })
        λ row found right. record {
          timed_log =
              log-append_if (is_transition input row) row.host_id row.event_id input.actor
                (some row.status) _;
          timed_notes = same.timed_notes;
        }
  after_call-IsTimedStore faults (noting h e author body) =
      let same = IsTimedStore-mono latest now s le t in
      append_note-ends faults (λ r. IsTimedStore now r.1) now h e author body s (λ e. same)
        λ row found given. record {
          timed_log = same.timed_log;
          timed_notes =
              IsTimed-append (λ n. n.created_at) (λ n. n.id) latest now s.notes _ le t.timed_notes
                refl refl;
        }

pub after_turns-IsTimedStore :
    (turns : List Turn) (from to : ℕ) (s : Store)
    → Rising from turns to
    → IsTimedStore from s
    → IsTimedStore to (after_turns turns s)
after_turns-IsTimedStore [] from to s le t = IsTimedStore-mono from to s le t
after_turns-IsTimedStore (x ∷ turns) from to s (le, rising) t =
    after_turns-IsTimedStore turns x.now to (after_call x.faults x.now x.call s) rising
      (after_call-IsTimedStore from x.now s le t x.faults x.call)

pub empty-IsTimedStore : IsTimedStore 0 empty_store
empty-IsTimedStore = record {
  timed_log = record { ordered = tt; bounded = tt };
  timed_notes = record { ordered = tt; bounded = tt };
}

module _ (turns : List Turn) (now : ℕ) (rising : Rising 0 turns now) where
  timed : IsTimedStore now (after_turns turns empty_store)
  timed = after_turns-IsTimedStore turns 0 now empty_store rising empty-IsTimedStore

  -- After any calls at times that never go back, of which the database may fail at any statement, a
  -- row that is there has its whole history in its log: `ListLog` returns entries that lead, without
  -- a gap and by real changes, from no row to the status that the row has.
  pub list_log-Chain :
      (fails : Faults) (h e : String) (row : Row)
      → fails select_row ≡ false
      → fails select_log ≡ false
      → find (is_row h e) (after_turns turns empty_store).rows ≡ some row
      → let s = after_turns turns empty_store in
        (log : List LogEntry) × (list_log fails h e s ≡ (ok log, s))
        × Chain none log (some row.status)
  list_log-Chain fails h e row reads lists found =
      let s = after_turns turns empty_store in
      (
        filter (is_entry h e) s.log,
        list_log-found fails h e row s reads lists found
            ∙ ap (λ l. (ok l, s))
                (sort-filter_timed (λ l. l.at) (λ l. l.id) now s.log (is_entry h e)
                  timed.timed_log),
        (let told = (after_turns-IsSound turns).told h e in rw found at told),
      )
