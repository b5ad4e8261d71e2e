-- ===== src/Api/Triage.antt =====
-- web/src/api/triage.ts: triage rows, notes and the requests that write them. The payloads are
-- generic in the evidence that a snapshot holds.
use sigil_manager.Prelude.{
  String, Bool, true, false, Option, some, List, [], ◌∷◌, ◌≡◌, ◌↔◌, arith, Eq, Number, template,
  Json, ℕ,
}
use sigil_manager.Api.Client.{Request, Fetched, RequestInit, no_init, Outcome, api}

pub data TriageStatus : Type 0 where
  open_status acknowledged investigating resolved : TriageStatus

abbrev pub status_text : TriageStatus → String
status_text open_status = "open"
status_text acknowledged = "acknowledged"
status_text investigating = "investigating"
status_text resolved = "resolved"

abbrev pub status_beq : TriageStatus → TriageStatus → Bool
status_beq open_status open_status = true
status_beq acknowledged acknowledged = true
status_beq investigating investigating = true
status_beq resolved resolved = true
status_beq _ _ = false

pub status_beq_iff : (a b : TriageStatus) → (status_beq a b ≡ true) ↔ (a ≡ b)
status_beq_iff open_status b = ground arith
status_beq_iff acknowledged b = ground arith
status_beq_iff investigating b = ground arith
status_beq_iff resolved b = ground arith

instance abbrev pub status_eq : Eq TriageStatus
status_eq = record { is_same = status_beq; same_iff = status_beq_iff }

pub record TriageRow {ℓ} (E : Type ℓ) : Type ℓ where
  pub host_id : String
  pub event_id : String
  pub status : TriageStatus
  pub assignee : Option String
  pub evidence_snapshot : E
  pub created_at : String
  pub updated_at : String

pub record TriageNote : Type 0 where
  pub id : Number
  pub host_id : String
  pub event_id : String
  pub author : String
  pub body : String
  pub created_at : String

pub record TriageLogEntry : Type 0 where
  pub id : Number
  pub actor : String
  pub from_status : Option TriageStatus
  pub to_status : Option TriageStatus
  pub at : String

pub record TriageDetail {ℓ} (E : Type ℓ) : Type ℓ where
  pub row : TriageRow E
  pub notes : List TriageNote
  pub log : List TriageLogEntry

-- A field that is `undefined` is left out of the request.
pub record UpsertPayload {ℓ} (E : Type ℓ) : Type ℓ where
  pub host_id : String
  pub event_id : String
  pub status : Option TriageStatus
  pub assignee : Option String
  pub clear_assignee : Option Bool
  pub evidence_snapshot : Option E

pub record NotePayload : Type 0 where
  pub host_id : String
  pub event_id : String
  pub body : String

-- The path of `getTriage`; `encode` is `encodeURIComponent`.
unfoldable pub triage_path : (encode : String → String) → String → String → String
triage_path encode host_id event_id =
    template ("/triage/" ∷ encode host_id ∷ "/" ∷ encode event_id ∷ [])

-- The requests. `stringify` is `JSON.stringify` of a payload.
module _ (fetch : Request → Fetched) (parse : String → Option Json) (show : ℕ → String) where
  abbrev post : String → RequestInit
  post body = record no_init { method = some "POST"; body = some body }

  unfoldable pub get_triage : (encode : String → String) → String → String → Outcome
  get_triage encode host_id event_id =
      api fetch parse show (triage_path encode host_id event_id) no_init

  unfoldable pub upsert_triage :
      {E : Type 0} → (stringify : UpsertPayload E → String) → UpsertPayload E → Outcome
  upsert_triage stringify payload = api fetch parse show "/triage/upsert" (post (stringify payload))

  unfoldable pub append_note : (stringify : NotePayload → String) → NotePayload → Outcome
  append_note stringify payload = api fetch parse show "/triage/note" (post (stringify payload))
