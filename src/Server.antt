-- ===== src/Server.antt =====
-- The triage store of the manager: internal/triage/types.go, the tables of internal/triage/schema.go
-- and the reads of one row in internal/triage/repo.go. Times are nanoseconds; `formatTS` writes them
-- at a fixed width, so the database orders its texts as the numbers are ordered.
pub mod Action
pub mod Ends
pub mod Upsert
pub mod Effects
pub mod Notes
pub mod Tables
pub mod Chain
pub mod Sound
pub mod Runs
pub mod Timed
pub mod History
pub mod Recall
pub mod KeyOrder
pub mod Listing
pub mod Handlers
pub mod Healthy
pub mod Replies
pub mod Reading
pub mod Atomic
pub mod Limiter
pub mod Console
use sigil_manager.Prelude.{
  ℕ, suc, ◌+◌, String, Bool, true, false, Option, none, some, List, [], ◌∷◌, ◌++◌, ◌≡◌, ◌↔◌, arith,
  ◌&&◌, ◌==◌, string_eq, find, filter, includes,
}

-- `AllStatuses`
abbrev pub all_statuses : List String
all_statuses = "open" ∷ "acknowledged" ∷ "investigating" ∷ "resolved" ∷ []

-- `Status.IsValid`
unfoldable pub is_valid : String → Bool
is_valid s = includes all_statuses s

pub record Row : Type 0 where
  pub host_id : String
  pub event_id : String
  pub status : String
  pub assignee : Option String
  pub evidence_snapshot : String
  pub created_at : ℕ
  pub updated_at : ℕ

pub record Note : Type 0 where
  pub id : ℕ
  pub host_id : String
  pub event_id : String
  pub author : String
  pub body : String
  pub created_at : ℕ

pub record LogEntry : Type 0 where
  pub id : ℕ
  pub host_id : String
  pub event_id : String
  pub actor : String
  pub from_status : Option String
  pub to_status : Option String
  pub at : ℕ

pub record UpsertInput : Type 0 where
  pub host_id : String
  pub event_id : String
  pub status : String
  pub assignee : Option String
  pub clear_assignee : Bool
  pub evidence_snapshot : String
  pub actor : String

-- The three errors that callers can tell, and any other.
pub data StoreError : Type 0 where
  not_found invalid_status missing_fields failed : StoreError

-- The three tables.
pub record Store : Type 0 where
  pub rows : List Row
  pub notes : List Note
  pub log : List LogEntry

abbrev pub empty_store : Store
empty_store = record { rows = []; notes = []; log = [] }

-- `WHERE host_id = ? AND event_id = ?`, on each table.
abbrev pub is_row : String → String → Row → Bool
is_row host_id event_id r = r.host_id == host_id && r.event_id == event_id

abbrev pub is_note : String → String → Note → Bool
is_note host_id event_id n = n.host_id == host_id && n.event_id == event_id

abbrev pub is_entry : String → String → LogEntry → Bool
is_entry host_id event_id l = l.host_id == host_id && l.event_id == event_id
