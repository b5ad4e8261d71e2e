-- ===== src/Fleet/Events/Links.antt =====
-- Links to the events page.
use sigil_manager.Prelude.{
  String, true, none, List, [], ◌∷◌, ◌≡◌, refl, ap, ◌∙◌, truthy, filter, filter-All, All, IsPlain,
  split-join, chars, split, join, Json, Items, nil, cons, items, field, end,
}
use sigil_manager.Fleet.Events.{url_list, texts, some_if_any, EventsSearch, validate_events_search}

-- A value that a list in the URL can hold: not empty, and without a comma.
abbrev pub IsListed : String → Type 0
IsListed s = IsPlain b',' (chars s) × (truthy s ≡ true)

-- An array of texts.
abbrev pub text_items : List String → Items
text_items [] = nil
text_items (s ∷ ss) = cons (Json.string s) (text_items ss)

texts-text_items : (ss : List String) → texts (items (text_items ss)) ≡ ss
texts-text_items [] = refl
texts-text_items (s ∷ ss) = ap (λ us. s ∷ us) (texts-text_items ss)

All-IsPlain : (ss : List String) → All IsListed ss → All (λ s. IsPlain b',' (chars s)) ss
All-IsPlain [] h = tt
All-IsPlain (s ∷ ss) h = (h.0.0, All-IsPlain ss h.1)

All-truthy : (ss : List String) → All IsListed ss → All (λ s. truthy s ≡ true) ss
All-truthy [] h = tt
All-truthy (s ∷ ss) h = (h.0.1, All-truthy ss h.1)

url_list-join : (ss : List String) → All IsListed ss → url_list (Json.string (join "," ss)) ≡ ss
unfolding url_list join split
url_list-join [] h = refl
url_list-join (s ∷ ss) h =
    ap (filter truthy) (split-join b',' "," s ss refl (All-IsPlain (s ∷ ss) h))
    ∙ filter-All truthy (s ∷ ss) (All-truthy (s ∷ ss) h)

pub url_list-items : (ss : List String) → url_list (Json.array (text_items ss)) ≡ ss
unfolding url_list
url_list-items ss = texts-text_items ss

-- For kinds and hosts that are not empty and have no comma, a link that writes them as texts with
-- commas opens the same search as one that writes them as arrays, and both hold exactly the values
-- that were written.
pub validate_events_search-join :
    (kinds hosts : List String)
    → All IsListed kinds
    → All IsListed hosts
    → let wanted : EventsSearch = record {
      kind = some_if_any kinds;
      host = some_if_any hosts;
      since = none;
      until = none;
      event = none;
      tool = none;
    } in
      (validate_events_search (
          field "kind"
            (Json.string (join "," kinds))
            (field "host" (Json.string (join "," hosts)) end))
        ≡ wanted)
      × (validate_events_search (
            field "kind"
              (Json.array (text_items kinds))
              (field "host" (Json.array (text_items hosts)) end))
          ≡ wanted)
unfolding validate_events_search
validate_events_search-join kinds hosts k h = (
  rw (url_list-join kinds k, url_list-join hosts h) refl,
  rw (url_list-items kinds, url_list-items hosts) refl,
)
