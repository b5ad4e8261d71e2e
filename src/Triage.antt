-- ===== src/Triage.antt =====
-- Triage of one alert: web/src/hooks/useTriage.ts and the writes of
-- web/src/components/AlertsQueue/SlideOver.tsx; what the slide-over shows is a child module.
pub mod Facts
pub mod Panel
pub mod Retries
pub mod Writes
pub mod Stale
pub mod Attempts
pub mod Reopening
use sigil_manager.Prelude.{
  ℕ, String, Bool, true, false, Option, none, some, List, [], ◌∷◌, ◌++◌, if◌then◌else◌, ◌==◌,
  string_eq, ltb, not, truthy, truthy?, trim, ◌&&◌,
}
use sigil_manager.Api.Client.{Failure, not_found, is_instance}
use sigil_manager.Api.Triage.{
  TriageStatus, open_status, TriageRow, TriageNote, TriageDetail, UpsertPayload, NotePayload,
}
use sigil_manager.Api.Fleet.{EventWithTriage, Event, Evidence}

-- `retry` of the detail query: a missing row is an answer, any other failure is tried again twice.
unfoldable pub retry : (failure_count : ℕ) → Failure → Bool
retry failure_count error = if is_instance not_found error then false else ltb failure_count 2

-- `enabled` of the detail query.
unfoldable pub enabled : (host_id event_id : Option String) → Bool
enabled host_id event_id = truthy? host_id && truthy? event_id

module _ {ℓ} (E : Type ℓ) where
  -- What the query library shows of the detail query.
  pub record DetailQuery : Type ℓ where
    pub loaded : Option (TriageDetail E)
    pub error : Option Failure
    pub is_pending : Bool

  pub record DetailOrNull : Type ℓ where
    pub detail : Option (TriageDetail E)
    pub is_pending : Bool
    pub status : Option TriageStatus

module _ {ℓ} {E : Type ℓ} where
  -- `useTriageDetailOrNull`
  unfoldable pub detail_or_null : DetailQuery E → DetailOrNull E
  detail_or_null q =
      let missing : Bool = elim q.error [ none ↦ false | some e ↦ is_instance not_found e ] in
      if missing
      then record { detail = none; is_pending = false; status = some open_status }
      else record {
        detail = q.loaded;
        is_pending = q.is_pending;
        status = elim q.loaded [ none ↦ none | some d ↦ some d.row.status ];
      }

-- The keys that a successful write makes stale.
unfoldable pub upsert_stale : (host_id event_id : String) → List (List String)
upsert_stale host_id event_id =
    ("triage" ∷ host_id ∷ event_id ∷ [])
    ∷ ("fleet" ∷ "events" ∷ [])
    ∷ ("fleet" ∷ "events-timeline" ∷ [])
    ∷ ("fleet" ∷ "event" ∷ event_id ∷ [])
    ∷ []

unfoldable pub note_stale : (host_id event_id : String) → List (List String)
note_stale host_id event_id = ("triage" ∷ host_id ∷ event_id ∷ []) ∷ []

-- A write that was sent, and whether it succeeded.
pub data Write : Type 0 where
  upserted : UpsertPayload (Option Evidence) → Bool → Write
  noted : NotePayload → Bool → Write

-- The evidence of the event, which may be `null`, where there is no row yet.
abbrev snapshot : EventWithTriage → (has_row : Bool) → Option (Option Evidence)
snapshot event true = none
snapshot event false = some event.evidence

unfoldable pub set_status :
    EventWithTriage → (has_row : Bool) → TriageStatus → UpsertPayload (Option Evidence)
set_status event has_row status = record {
  host_id = event.host_id;
  event_id = event.event_id;
  status = some status;
  assignee = none;
  clear_assignee = none;
  evidence_snapshot = snapshot event has_row;
}

unfoldable pub on_assign :
    EventWithTriage → (has_row : Bool) → (draft : String) → UpsertPayload (Option Evidence)
on_assign event has_row draft =
    let trimmed = trim draft in
    record {
      host_id = event.host_id;
      event_id = event.event_id;
      status = none;
      assignee = if trimmed == "" then none else some trimmed;
      clear_assignee = some (trimmed == "");
      evidence_snapshot = snapshot event has_row;
    }

-- What submitting a note did: the writes in their order, and the draft afterwards.
pub record Submitted : Type 0 where
  pub writes : List Write
  pub draft : String

module _ (upsert : UpsertPayload (Option Evidence) → Bool) (append : NotePayload → Bool) where
  append_note : NotePayload → (draft : String) → Submitted
  append_note note draft = record {
    writes = noted note (append note) ∷ [];
    draft = if append note then "" else draft;
  }

  -- `upsert` and `append` tell whether the server accepts a write.
  unfoldable pub on_submit_note : EventWithTriage → (has_row : Bool) → (draft : String) → Submitted
  unfolding append_note set_status
  on_submit_note event has_row draft =
      let note : NotePayload = record {
        host_id = event.host_id;
        event_id = event.event_id;
        body = trim draft;
      } in
      let opened = set_status event has_row open_status in
      if not (truthy (trim draft))
      then record { writes = []; draft = draft }
      else if not has_row
      then (if upsert opened
          then record (append_note note draft) {
            writes = upserted opened true ∷ (append_note note draft).writes;
          }
          else record { writes = upserted opened false ∷ []; draft = draft })
      else append_note note draft
