-- ===== src/Server/Runs.antt =====
-- The store over time: calls of internal/triage/repo.go, one after another, each at its own time and
-- with a database that fails where it will.
use sigil_manager.Prelude.{ℕ, String, List, [], ◌∷◌}
use sigil_manager.Server.{UpsertInput, Store, empty_store}
use sigil_manager.Server.Action.{Faults}
use sigil_manager.Server.Upsert.{upsert}
use sigil_manager.Server.Effects.{upsert-ends}
use sigil_manager.Server.Notes.{append_note, append_note-ends}
use sigil_manager.Server.Tables.{any-find}
use sigil_manager.Server.Sound.{
  IsSound, empty-IsSound, inserted-IsSound, updated-IsSound, noted-IsSound,
}

-- A call that writes.
pub data Call : Type 0 where
  upserting : UpsertInput → Call
  noting : (host_id event_id author body : String) → Call

pub record Turn : Type 0 where
  pub faults : Faults
  pub now : ℕ
  pub call : Call

-- The store after a call.
unfoldable pub after_call : Faults → ℕ → Call → Store → Store
after_call faults now (upserting input) s = (upsert faults now input s).1
after_call faults now (noting host_id event_id author body) s =
    (append_note faults now host_id event_id author body s).1

abbrev pub after_turns : List Turn → Store → Store
after_turns [] s = s
after_turns (t ∷ turns) s = after_turns turns (after_call t.faults t.now t.call s)

pub after_call-IsSound :
    (faults : Faults) (now : ℕ) (call : Call) (s : Store)
    → IsSound s
    → IsSound (after_call faults now call s)
unfolding after_call
after_call-IsSound faults now (upserting input) s sound =
    upsert-ends now input (λ r. IsSound r.1) s faults (λ e. sound)
      (λ free right given. inserted-IsSound now input s sound free right given)
      λ row found right. updated-IsSound now input s sound row found right
after_call-IsSound faults now (noting host_id event_id author body) s sound =
    append_note-ends faults (λ r. IsSound r.1) now host_id event_id author body s (λ e. sound)
      λ row found given. noted-IsSound s _ sound (any-find _ s.rows row found)

-- After any calls at any times, of which the database may fail at any statement of any, no key has
-- two rows, every status is one of the four, every row has its evidence, every note is on a row, and
-- the log of every key leads without a gap and by real changes from no row to the status of its row,
-- or is empty where there is none.
pub after_turns-IsSound : (turns : List Turn) → IsSound (after_turns turns empty_store)
after_turns-IsSound turns = from turns empty_store empty-IsSound
  where
    from : (turns : List Turn) (s : Store) → IsSound s → IsSound (after_turns turns s)
    from [] s sound = sound
    from (t ∷ turns) s sound =
        from turns (after_call t.faults t.now t.call s)
          (after_call-IsSound t.faults t.now t.call s sound)
