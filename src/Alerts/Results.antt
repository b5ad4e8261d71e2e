-- ===== src/Alerts/Results.antt =====
-- What the alerts page shows of its two requests: the value of `useAlerts` in
-- web/src/hooks/useAlerts.ts, the count line and the body of web/src/routes/_authed/alerts.tsx, and
-- the rows of web/src/components/AlertsQueue/QueueTable.tsx and QueueRow.tsx.
pub mod Counts
use sigil_manager.Prelude.{
  ℕ, String, Bool, true, false, Option, none, some, List, [], ◌∷◌, ◌&&◌, ◌||◌, if◌then◌else◌, not,
  eqb, ◌==◌, string_eq, length, map, includes, template,
}
use sigil_manager.Api.Client.{Failure, message_of}
use sigil_manager.Api.Triage.{TriageStatus}
use sigil_manager.Api.Fleet.{EventWithTriage, Event, MetaResponse, extract_ai_guard}
use sigil_manager.Alerts.Filter.{AlertFilter, status_of, apply_client_filter}
use sigil_manager.Alerts.Search.{is_filter_active}
use sigil_manager.Alerts.Sorting.{SortMode, severity_desc, age_desc, age_asc, sort_events}
use sigil_manager.Alerts.Queue.{severity_to_bucket, compute_title, display_host, Pill, status_pill}
use sigil_manager.Alerts.Ranges.{empty_hint}

-- What the query library shows of the metadata request.
pub record MetaQuery : Type 0 where
  pub loaded : Option MetaResponse
  pub is_pending : Bool
  pub error : Option Failure

-- What the paged list shows of the events request.
pub record EventsQuery : Type 0 where
  pub rows : List EventWithTriage
  pub is_pending : Bool
  pub error : Option Failure
  pub has_more : Bool
  pub cursor_repeated : Bool

pub record AlertsView : Type 0 where
  pub rows : List EventWithTriage
  pub raw_count : ℕ
  pub is_pending : Bool
  pub error : Option Failure

-- `!!meta.data`, which also enables the events request.
abbrev pub is_loaded : MetaQuery → Bool
is_loaded meta = elim meta.loaded [ none ↦ false | some m ↦ true ]

-- `a ?? b`
abbrev pub first_error : Option Failure → Option Failure → Option Failure
first_error none b = b
first_error (some a) b = some a

module _ (lower : String → String) where
  unfoldable pub use_alerts : AlertFilter → MetaQuery → EventsQuery → AlertsView
  use_alerts f meta events = record {
    rows = apply_client_filter lower events.rows f;
    raw_count = length events.rows;
    is_pending = meta.is_pending || (is_loaded meta && events.is_pending);
    error = first_error meta.error events.error;
  }

-- The requests of `refetch`, in their order; the metadata is the one of the last render.
unfoldable pub refetch : MetaQuery → List String
refetch meta = if is_loaded meta then "meta" ∷ "events" ∷ [] else "meta" ∷ []

-- The line under the heading.
unfoldable pub count_line : (show : ℕ → String) → AlertsView → String
count_line show v =
    if v.is_pending
    then "Loading…"
    else template (
        show (length v.rows)
        ∷ " shown"
        ∷ (if not (eqb v.raw_count (length v.rows))
            then template (" of " ∷ show v.raw_count ∷ " fetched" ∷ [])
            else "")
        ∷ [])

-- One row of the queue.
pub record RowView : Type 0 where
  pub age : String
  pub title : String
  pub host : String
  pub bucket : String
  pub pill : Pill
  pub assignee : String
  pub selected : Bool
  pub is_fresh : Bool

abbrev is_selected : Option String → EventWithTriage → Bool
is_selected none ev = false
is_selected (some id) ev = ev.event_id == id

abbrev has_triage : EventWithTriage → Bool
has_triage ev = elim ev.triage [ none ↦ false | some t ↦ true ]

abbrev assignee_of : EventWithTriage → String
assignee_of ev = elim ev.triage [
  | none ↦ "—"
  | some t ↦ elim t.assignee [ none ↦ "—" | some name ↦ name ]
]

module _ (upper : String → String) (relative_age : String → String) where
  unfoldable pub row_view :
      (selected : Option String) (fresh_ids : List String) → EventWithTriage → RowView
  row_view selected fresh_ids ev = record {
    age = relative_age ev.ts;
    title = compute_title upper ev;
    host = display_host ev.host_id;
    bucket = elim (extract_ai_guard ev.event) [
      | none ↦ severity_to_bucket ev.severity
      | some ag ↦ ag.bucket
    ];
    pill = status_pill (status_of ev) (has_triage ev);
    assignee = assignee_of ev;
    selected = is_selected selected ev;
    is_fresh = includes fresh_ids ev.event_id;
  }

-- The marks of the order in the header of the table.
unfoldable pub age_mark : SortMode → String
age_mark age_desc = "↓"
age_mark age_asc = "↑"
age_mark severity_desc = ""

unfoldable pub severity_mark : SortMode → String
severity_mark severity_desc = "↓"
severity_mark _ = ""

-- What stands below the filter row.
pub data Body : Type 0 where
  failed : (message : String) → Body
  skeleton : Body
  hint : (text : String) → Body
  table : List EventWithTriage → Body

-- The table: it waits, says that it is empty, or has the events in their order.
unfoldable pub queue_table :
    (events : List EventWithTriage) (sort : SortMode)
    (is_pending filters_active partial_results : Bool)
    → Body
queue_table events sort is_pending filters_active partial_results =
    if is_pending
    then skeleton
    else if eqb (length (sort_events events sort)) 0
    then hint (empty_hint filters_active partial_results)
    else table (sort_events events sort)

unfoldable pub alerts_body : AlertFilter → SortMode → EventsQuery → AlertsView → Body
unfolding queue_table
alerts_body f sort events v =
    let queue =
      queue_table v.rows sort v.is_pending (is_filter_active f)
        (events.has_more || events.cursor_repeated) in
    elim v.error [
      | none ↦ queue
      | some e ↦ if eqb v.raw_count 0 then failed (message_of e) else queue
    ]
