-- ===== src/Fleet/Events.antt =====
-- The events page: web/src/hooks/useFleetEvents.ts and web/src/routes/_authed/fleet/events.tsx.
-- `lower` is `toLowerCase`, which stays a parameter.
pub mod Rows
pub mod Links
pub mod Form
pub mod Quick
pub mod Reload
use sigil_manager.Prelude.{
  ℕ, String, Bool, true, false, Option, none, some, List, [], ◌∷◌, ◌≡◌, if◌then◌else◌, not, ltb,
  length, ◌==◌, string_eq, truthy, truthy?, template, trim, split, join, Number, Json, Items,
  Fields, nil, cons, lookup, or_else, to_string, items, filter, map, includes,
}
use sigil_manager.Api.Fleet.{
  Event, EventWithTriage, Evidence, ai_guard_risk_assessed, hook, ai_guard_toggle_drift, other_kind,
  HookEvidence, hook_invocation, hook_decision, hook_config_drift, possible_hook_activity_silent,
}
use sigil_manager.Api.Query.{EventsParams}

pub record EventsSearch : Type 0 where
  pub kind : Option (List String)
  pub host : Option (List String)
  pub since : Option String
  pub until : Option String
  pub event : Option String
  pub tool : Option String

-- `x is string`
abbrev pub texts : List Json → List String
texts [] = []
texts (Json.string s ∷ vs) = s ∷ texts vs
texts (v ∷ vs) = texts vs

-- `if (values.length) out[key] = values`
abbrev pub some_if_any : List String → Option (List String)
some_if_any [] = none
some_if_any (s ∷ ss) = some (s ∷ ss)

-- A list in the URL: the texts of an array, or the parts of a text that are not empty.
unfoldable pub url_list : Json → List String
url_list (Json.array vs) = texts (items vs)
url_list (Json.string s) = filter truthy (split b',' s)
url_list _ = []

-- `typeof v === 'string' && v.length > 0`
abbrev pub url_text : Json → Option String
url_text (Json.string s) = if s == "" then none else some s
url_text _ = none

unfoldable pub validate_events_search : Fields → EventsSearch
unfolding url_list
validate_events_search raw = record {
  kind = some_if_any (url_list (lookup "kind" raw));
  host = some_if_any (url_list (lookup "host" raw));
  since = url_text (lookup "since" raw);
  until = url_text (lookup "until" raw);
  event = url_text (lookup "event" raw);
  tool = url_text (lookup "tool" raw);
}

-- The list in a field of the form.
unfoldable pub form_list : String → Option (List String)
form_list field =
    let value = trim field in
    if truthy value then some (filter truthy (map trim (split b',' value))) else none

-- `value(name) || undefined`
unfoldable pub form_text : String → Option String
form_text field = if truthy (trim field) then some (trim field) else none

-- What submitting the form makes of the search: the open event stays.
unfoldable pub on_submit : (kind host since until tool : String) → EventsSearch → EventsSearch
unfolding form_list form_text
on_submit kind host since until tool search = record search {
  kind = form_list kind;
  host = form_list host;
  since = form_text since;
  until = form_text until;
  tool = form_text tool;
}

pub record FleetEventsFilter : Type 0 where
  pub evidence_kinds : List String
  pub host_ids : List String
  pub since : Option String
  pub until : Option String
  pub tool : Option String

abbrev pub or_none : Option (List String) → List String
or_none none = []
or_none (some ss) = ss

unfoldable pub events_filter : EventsSearch → FleetEventsFilter
events_filter search = record {
  evidence_kinds = or_none search.kind;
  host_ids = or_none search.host;
  since = search.since;
  until = search.until;
  tool = search.tool;
}

unfoldable pub events_params : FleetEventsFilter → EventsParams
events_params f = record {
  cursor = none;
  limit = some (record { decimal = "100" });
  host_id = some_if_any f.host_ids;
  since = f.since;
  until = f.until;
  evidence_kind = some_if_any f.evidence_kinds;
  severity = none;
  source = none;
  min_ai_guard_bucket = none;
}

-- `String(evidence.tool ?? evidence.agent ?? '')`
unfoldable pub tool_name : Evidence → String
unfolding to_string
tool_name (ai_guard_risk_assessed a) = a.tool
tool_name (ai_guard_toggle_drift d) = d.tool
tool_name (hook (hook_invocation h)) = h.agent
tool_name (hook (hook_decision h)) = h.agent
tool_name (hook (hook_config_drift h)) = h.agent
tool_name (hook (possible_hook_activity_silent h)) = h.agent
tool_name (other_kind kind fs) =
    to_string (or_else (or_else (lookup "tool" fs) (lookup "agent" fs)) (Json.string ""))

module _ (lower : String → String) where
  -- The filter by tool. It reads the evidence of each row, and throws, which is `none`, at a row
  -- that has none.
  unfoldable pub tool_rows : (tool : String) → List EventWithTriage → Option (List EventWithTriage)
  tool_rows tool [] = some []
  tool_rows tool (row ∷ rest) =
      let more = tool_rows tool rest in
      elim row.evidence [
        | none ↦ none
        | some e ↦ elim more [
          | none ↦ none
          | some kept ↦ some (if lower (tool_name e) == tool then row ∷ kept else kept)
        ]
      ]

  -- The rows that the page shows of the loaded ones.
  unfoldable pub fleet_events_rows :
      FleetEventsFilter → List EventWithTriage → Option (List EventWithTriage)
  unfolding tool_rows
  fleet_events_rows f rows = elim f.tool [
    | none ↦ some rows
    | some t ↦ if truthy (lower t) then tool_rows (lower t) rows else some rows
  ]
