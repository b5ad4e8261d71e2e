-- ===== src/Fleet/Events/Reload.antt =====
-- The events page after a reload: the router writes the search into the URL, where a key without a
-- value is left out, and `validateSearch` of web/src/routes/_authed/fleet/events.tsx reads it.
use sigil_manager.Prelude.{
  String, Option, none, some, List, [], ◌∷◌, ◌≡◌, refl, ap, ◌∙◌, arith, string_eq, Json, Fields,
  field, end,
}
use sigil_manager.Fleet.Events.{
  EventsSearch, url_list, url_text, some_if_any, or_none, validate_events_search, form_text,
  on_submit, events_filter,
}
use sigil_manager.Fleet.Events.Links.{text_items, url_list-items}

abbrev pub list_json : Option (List String) → Json
list_json none = Json.undefined
list_json (some ss) = Json.array (text_items ss)

abbrev pub text_json : Option String → Json
text_json none = Json.undefined
text_json (some t) = Json.string t

-- What the URL has of a search.
abbrev pub url_fields : EventsSearch → Fields
url_fields s = field "kind" (list_json s.kind) (
    field "host" (list_json s.host) (
      field "since" (text_json s.since) (
        field "until" (text_json s.until)
          (field "event" (text_json s.event) (field "tool" (text_json s.tool) end)))))

or_none-some_if_any : (ss : List String) → or_none (some_if_any ss) ≡ ss
or_none-some_if_any [] = refl
or_none-some_if_any (s ∷ ss) = refl

list-kept : (v : Option (List String)) → or_none (some_if_any (url_list (list_json v))) ≡ or_none v
list-kept none = unfold url_list in refl
list-kept (some ss) =
    ap (λ us. or_none (some_if_any us)) (url_list-items ss) ∙ or_none-some_if_any ss

text-kept : (typed : String) → url_text (text_json (form_text typed)) ≡ form_text typed
unfolding form_text
text-kept typed = ground arith

-- Whatever is typed into the form, after a reload the page asks for the same events as after
-- submitting the form.
pub events_filter-reload :
    (kind host since until tool : String) (s : EventsSearch)
    → let sent = on_submit kind host since until tool s in
      events_filter (validate_events_search (url_fields sent)) ≡ events_filter sent
unfolding events_filter validate_events_search on_submit
events_filter-reload kind host since until tool s =
    let sent = on_submit kind host since until tool s in
    let kinds = list-kept sent.kind in
    let hosts = list-kept sent.host in
    let from = text-kept since in
    let to = text-kept until in
    let named = text-kept tool in
    λ i. record {
      evidence_kinds = kinds i;
      host_ids = hosts i;
      since = from i;
      until = to i;
      tool = named i;
    }
