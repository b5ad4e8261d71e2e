-- ===== src/Fleet/Events/Form.antt =====
-- The form of the events page: what it shows of a search, and that sending it back unchanged keeps
-- the search.
use sigil_manager.Prelude.{
  String, true, Option, none, some, List, [], ◌∷◌, ◌≡◌, refl, ap, ◌∙◌, truthy, filter, filter-All,
  All, IsPlain, split-join, chars, join, map, trim, IsSolid, trim-IsSolid, truthy-IsSolid,
  join-IsSolid,
}
use sigil_manager.Fleet.Events.{EventsSearch, form_list, form_text, on_submit}

-- `defaultValue` of a field that holds a list.
abbrev pub list_value : Option (List String) → String
list_value none = ""
list_value (some ss) = join "," ss

abbrev pub text_value : Option String → String
text_value none = ""
text_value (some t) = t

-- Submitting the form as it was rendered.
unfoldable pub resubmit : EventsSearch → EventsSearch
unfolding on_submit
resubmit s =
    on_submit (list_value s.kind) (list_value s.host) (text_value s.since) (text_value s.until)
      (text_value s.tool) s

-- A value that a list field can hold: without a comma and without a space at either end.
abbrev pub IsEntry : String → Type 0
IsEntry s = IsPlain b',' (chars s) × IsSolid s

abbrev pub ListIsShown : Option (List String) → Type 0
ListIsShown none = Unit
ListIsShown (some []) = ⊥
ListIsShown (some (s ∷ ss)) = All IsEntry (s ∷ ss)

abbrev pub TextIsShown : Option String → Type 0
TextIsShown none = Unit
TextIsShown (some t) = IsSolid t

-- A search whose values stand in the form as they are.
pub record IsShown (s : EventsSearch) : Type 0 where
  pub kind : ListIsShown s.kind
  pub host : ListIsShown s.host
  pub since : TextIsShown s.since
  pub until : TextIsShown s.until
  pub tool : TextIsShown s.tool

All-IsPlain : (ss : List String) → All IsEntry ss → All (λ s. IsPlain b',' (chars s)) ss
All-IsPlain [] h = tt
All-IsPlain (s ∷ ss) h = (h.0.0, All-IsPlain ss h.1)

All-IsSolid : (ss : List String) → All IsEntry ss → All IsSolid ss
All-IsSolid [] h = tt
All-IsSolid (s ∷ ss) h = (h.0.1, All-IsSolid ss h.1)

map-trim : (ss : List String) → All IsSolid ss → map trim ss ≡ ss
map-trim [] h = refl
map-trim (s ∷ ss) h = rw (trim-IsSolid s h.0, map-trim ss h.1) refl

All-truthy : (ss : List String) → All IsSolid ss → All (λ s. truthy s ≡ true) ss
All-truthy [] h = tt
All-truthy (s ∷ ss) h = (truthy-IsSolid s h.0, All-truthy ss h.1)

form_list-join :
    (s : String) (ss : List String)
    → All IsEntry (s ∷ ss)
    → form_list (join "," (s ∷ ss)) ≡ some (s ∷ ss)
unfolding form_list
form_list-join s ss h =
    let solid = join-IsSolid "," s ss (All-IsSolid (s ∷ ss) h) in
    rw (trim-IsSolid (join "," (s ∷ ss)) solid, truthy-IsSolid (join "," (s ∷ ss)) solid)
      (ap (λ parts. some (filter truthy (map trim parts)))
          (split-join b',' "," s ss refl (All-IsPlain (s ∷ ss) h))
        ∙ ap (λ parts. some (filter truthy parts)) (map-trim (s ∷ ss) (All-IsSolid (s ∷ ss) h))
        ∙ ap some (filter-All truthy (s ∷ ss) (All-truthy (s ∷ ss) (All-IsSolid (s ∷ ss) h))))

form_list-value : (v : Option (List String)) → ListIsShown v → form_list (list_value v) ≡ v
form_list-value none h = unfold form_list trim in refl
form_list-value (some []) h = absurd h
form_list-value (some (s ∷ ss)) h = form_list-join s ss h

form_text-value : (v : Option String) → TextIsShown v → form_text (text_value v) ≡ v
unfolding form_text
form_text-value none h = unfold trim in refl
form_text-value (some t) h = rw (trim-IsSolid t h, truthy-IsSolid t h) refl

-- If every list of the search is given with an entry or not at all, no entry has a comma, and no
-- entry and no text begins or ends with a space, then submitting the form as it was rendered keeps
-- the search, the open event included.
pub resubmit_lem : (s : EventsSearch) → IsShown s → resubmit s ≡ s
unfolding resubmit
resubmit_lem s h =
    let kind = form_list-value s.kind h.kind in
    let host = form_list-value s.host h.host in
    let since = form_text-value s.since h.since in
    let until = form_text-value s.until h.until in
    let tool = form_text-value s.tool h.tool in
    λ i. record {
      kind = kind i;
      host = host i;
      since = since i;
      until = until i;
      event = s.event;
      tool = tool i;
    }
