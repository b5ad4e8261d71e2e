-- ===== src/Server/Handlers.antt =====
-- internal/api/v1/triage.go: the three requests on a triage row. A body that is no JSON is `none`;
-- `format` writes a time, and `subject` is who has signed in. Texts of errors are left out.
use sigil_manager.Prelude.{
  ℕ, String, Bool, true, false, Option, none, some, List, map, if◌then◌else◌, ◌==◌, string_eq, ◌&&◌,
  ◌||◌, not,
}
use sigil_manager.Server.{
  Row, Note, LogEntry, UpsertInput, StoreError, not_found, invalid_status, missing_fields, failed,
  Store, is_valid,
}
use sigil_manager.Server.Action.{Result, ok, err, Faults, ◌>>=◌, pure}
use sigil_manager.Server.Upsert.{upsert}
use sigil_manager.Server.Notes.{get_by_event_key, append_note, list_notes, list_log}

pub record UpsertRequest : Type 0 where
  pub host_id : String
  pub event_id : String
  pub status : String
  pub assignee : Option String
  pub clear_assignee : Bool
  pub evidence_snapshot : String

pub record RowResponse : Type 0 where
  pub host_id : String
  pub event_id : String
  pub status : String
  pub assignee : Option String
  pub evidence_snapshot : String
  pub created_at : String
  pub updated_at : String

pub record NoteRequest : Type 0 where
  pub host_id : String
  pub event_id : String
  pub body : String

pub record NoteResponse : Type 0 where
  pub id : ℕ
  pub host_id : String
  pub event_id : String
  pub author : String
  pub body : String
  pub created_at : String

pub record LogResponse : Type 0 where
  pub id : ℕ
  pub actor : String
  pub from_status : Option String
  pub to_status : Option String
  pub at : String

pub record GetResponse : Type 0 where
  pub row : RowResponse
  pub notes : List NoteResponse
  pub log : List LogResponse

-- What is written to the client: an answer, or the status and the code of an error.
pub data Reply (A : Type 0) : Type 0 where
  replied : A → Reply A
  refused : ℕ → String → Reply A

abbrev pub is_replied : {A : Type 0} → Reply A → Bool
is_replied (replied a) = true
is_replied (refused status code) = false

-- `mapTriageErr`
abbrev pub map_triage_err : {A : Type 0} → StoreError → Reply A
map_triage_err not_found = refused 404 "not_found"
map_triage_err invalid_status = refused 400 "invalid_query"
map_triage_err missing_fields = refused 400 "invalid_query"
map_triage_err failed = refused 500 "internal"

abbrev pub reply_of : {A B : Type 0} → (A → B) → Result A × Store → Reply B × Store
reply_of f (ok a, s) = (replied (f a), s)
reply_of f (err e, s) = (map_triage_err e, s)

abbrev pub upsert_input : String → UpsertRequest → UpsertInput
upsert_input subject req = record {
  host_id = req.host_id;
  event_id = req.event_id;
  status = req.status;
  assignee = req.assignee;
  clear_assignee = req.clear_assignee;
  evidence_snapshot = req.evidence_snapshot;
  actor = subject;
}

module _ (format : ℕ → String) where
  abbrev pub row_to_response : Row → RowResponse
  row_to_response row = record {
    host_id = row.host_id;
    event_id = row.event_id;
    status = row.status;
    assignee = row.assignee;
    evidence_snapshot = row.evidence_snapshot;
    created_at = format row.created_at;
    updated_at = format row.updated_at;
  }

  abbrev pub note_to_response : Note → NoteResponse
  note_to_response n = record {
    id = n.id;
    host_id = n.host_id;
    event_id = n.event_id;
    author = n.author;
    body = n.body;
    created_at = format n.created_at;
  }

  abbrev pub entry_to_response : LogEntry → LogResponse
  entry_to_response l = record {
    id = l.id;
    actor = l.actor;
    from_status = l.from_status;
    to_status = l.to_status;
    at = format l.at;
  }

  module _ (fails : Faults) (now : ℕ) (subject : String) where
    unfoldable pub handle_triage_upsert : Option UpsertRequest → Store → Reply RowResponse × Store
    handle_triage_upsert none s = (refused 400 "invalid_query", s)
    handle_triage_upsert (some req) s =
        if req.host_id == "" || req.event_id == ""
        then (refused 400 "invalid_query", s)
        else if not (req.status == "") && not (is_valid req.status)
        then (refused 400 "invalid_query", s)
        else reply_of row_to_response (upsert fails now (upsert_input subject req) s)

    unfoldable pub handle_triage_note : Option NoteRequest → Store → Reply NoteResponse × Store
    handle_triage_note none s = (refused 400 "invalid_query", s)
    handle_triage_note (some req) s =
        if req.host_id == "" || req.event_id == "" || req.body == ""
        then (refused 400 "invalid_query", s)
        else reply_of note_to_response
            (append_note fails now req.host_id req.event_id subject req.body s)

  unfoldable pub handle_triage_get :
      Faults → (host_id event_id : String) → Store → Reply GetResponse × Store
  handle_triage_get fails host_id event_id s =
      if host_id == "" || event_id == ""
      then (refused 400 "invalid_query", s)
      else reply_of (λ found. found)
          ((do
            row ← get_by_event_key fails host_id event_id
            notes ← list_notes fails host_id event_id
            log ← list_log fails host_id event_id
            pure (record {
              row = row_to_response row;
              notes = map note_to_response notes;
              log = map entry_to_response log;
            }))
            s)
