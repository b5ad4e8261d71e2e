-- ===== src/Fleet/Details.antt =====
-- web/src/components/EventDetails.tsx: the event that a shared URL names.
pub mod Shown
use sigil_manager.Prelude.{
  ℕ, String, Bool, true, false, Option, none, some, List, [], ◌∷◌, ◌&&◌, ◌||◌, if◌then◌else◌, not,
  ◌==◌, string_eq, truthy, truthy?, find,
}
use sigil_manager.Api.Client.{Failure, not_found, is_instance}
use sigil_manager.Api.Fleet.{Event, EventWithTriage}

-- What the component shows.
pub data DetailsView : Type 0 where
  nothing : DetailsView
  slide_over : EventWithTriage → DetailsView
  unavailable : DetailsView
  failed_to_load : Failure → DetailsView
  loading : DetailsView

-- `rows.find((row) => row.event_id === eventID)`
abbrev pub loaded_event : Option String → List EventWithTriage → Option EventWithTriage
loaded_event none rows = none
loaded_event (some id) rows = find (λ row. row.event_id == id) rows

-- `enabled` of the query.
unfoldable pub asks_server : Option String → List EventWithTriage → Bool
asks_server event_id rows =
    truthy? event_id && (elim (loaded_event event_id rows) [ none ↦ true | some ev ↦ false ])

-- `event && (!hostID || hostID === event.host_id)`
abbrev pub is_here : Option String → EventWithTriage → Bool
is_here none ev = true
is_here (some host) ev = not (truthy host) || (host == ev.host_id)

-- Without an event: the error of the query, or the wait for its answer.
abbrev without_event : Option Failure → DetailsView
without_event none = loading
without_event (some f) = if is_instance not_found f then unavailable else failed_to_load f

-- The view, from the query's data and error.
unfoldable pub details_view :
    (event_id : Option String) (rows : List EventWithTriage) (host_id : Option String)
    → (answer : Option EventWithTriage) (error : Option Failure) → DetailsView
details_view event_id rows host_id answer error =
    let event : Option EventWithTriage = elim (loaded_event event_id rows) [
      | none ↦ answer
      | some ev ↦ some ev
    ] in
    if not (truthy? event_id) then nothing else (elim event [
      | none ↦ without_event error
      | some ev ↦ if is_here host_id ev then slide_over ev else unavailable
    ])
