-- ===== src/Fleet/Details/Shown.antt =====
-- What a shared URL shows.
use sigil_manager.Prelude.{
  Bool-cases, ◌⊎◌, inl, inr, String, Bool, true, false, Option, none, some, List, [], ◌∷◌, ◌≡◌, ◌⊎◌,
  inl, inr, refl, sym, ap, ◌∙◌, arith, if◌then◌else◌, ◌==◌, string_eq, eq_iff, not, truthy, find,
}
use sigil_manager.Api.Client.{Failure, is_instance, not_found}
use sigil_manager.Api.Fleet.{EventWithTriage}
use sigil_manager.Fleet.Details.{
  DetailsView, nothing, slide_over, unavailable, failed_to_load, details_view, is_here,
  without_event,
}

-- What a test and its two results say of the result.
found_if :
    (b : Bool) (a ev : EventWithTriage) (rest : Option EventWithTriage)
    → (if b then some a else rest) ≡ some ev
    → ((b ≡ true) × (a ≡ ev)) ⊎ (rest ≡ some ev)
found_if true a ev rest h = inl (refl, cc)
found_if false a ev rest h = inr h

shown_if :
    (b : Bool) (a ev : EventWithTriage)
    → (if b then slide_over a else unavailable) ≡ slide_over ev
    → (b ≡ true) × (a ≡ ev)
shown_if true a ev h = (refl, cc)
shown_if false a ev h = cc

failed_if :
    (b : Bool) (f : Failure) (ev : EventWithTriage)
    → (if b then unavailable else failed_to_load f) ≡ slide_over ev
    → ⊥
failed_if true f ev h = cc
failed_if false f ev h = cc

find-holds :
    (id : String) (rows : List EventWithTriage) (ev : EventWithTriage)
    → find (λ row. row.event_id == id) rows ≡ some ev
    → ev.event_id ≡ id
find-holds id [] ev h = cc
find-holds id (row ∷ rows) ev h =
    elim (found_if (row.event_id == id) row ev (find (λ r. r.event_id == id) rows) h) [
      | inl (found, same) ↦ ap (λ r. r.event_id) (sym same) ∙ (eq_iff row.event_id id).0 found
      | inr later ↦ find-holds id rows ev later
    ]

opened :
    (b : Bool) (v : DetailsView) (ev : EventWithTriage)
    → (if not b then nothing else v) ≡ slide_over ev
    → v ≡ slide_over ev
opened true v ev h = h
opened false v ev h = cc

-- The event of the view is the one that was chosen, and it is of this host.
chosen :
    (e : Option EventWithTriage) (host_id : Option String) (error : Option Failure)
    (ev : EventWithTriage)
    → (elim e [
      | none ↦ without_event error
      | some a ↦ if is_here host_id a then slide_over a else unavailable
    ])
      ≡ slide_over ev
    → (e ≡ some ev) × (is_here host_id ev ≡ true)
chosen none host_id none ev h = cc
chosen none host_id (some f) ev h = absurd (failed_if (is_instance not_found f) f ev h)
chosen (some a) host_id error ev h =
    let (local, same) = shown_if (is_here host_id a) a ev h in
    (ap some same, ap (is_here host_id) (sym same) ∙ local)

-- Of the host of the page, where the page has one.
abbrev pub IsOfHost : Option String → EventWithTriage → Type 0
IsOfHost none ev = Unit
IsOfHost (some host) ev = (host ≡ "") ⊎ (ev.host_id ≡ host)

here :
    (host_id : Option String) (ev : EventWithTriage)
    → is_here host_id ev ≡ true
    → IsOfHost host_id ev
here none ev h = tt
here (some host) ev h = elim (Bool-cases (truthy host)) [
  | inl named_host ↦ inr (ground (arith, eq_iff host ev.host_id))
  | inr no_host ↦ inl (ground (arith, eq_iff host ""))
]

-- An event of the loaded rows or of the answer has the id that the URL names.
named :
    (found answer : Option EventWithTriage) (id : String) (ev : EventWithTriage)
    → ((a : EventWithTriage) → found ≡ some a → a.event_id ≡ id)
    → ((a : EventWithTriage) → answer ≡ some a → a.event_id ≡ id)
    → (elim found as (λ o. Option EventWithTriage) [ none ↦ answer | some a ↦ some a ]) ≡ some ev
    → ev.event_id ≡ id
named none answer id ev k honest h = honest ev h
named (some a) answer id ev k honest h = k ev h

-- If the server answers a request for an id with an event of that id, the slide-over shows only the
-- event that the URL names, and on the page of a host only an event of that host.
pub details_view-slide_over :
    (id : String) (rows : List EventWithTriage) (host_id : Option String)
    (answer : Option EventWithTriage) (error : Option Failure) (ev : EventWithTriage)
    → ((a : EventWithTriage) → answer ≡ some a → a.event_id ≡ id)
    → details_view (some id) rows host_id answer error ≡ slide_over ev
    → (ev.event_id ≡ id) × IsOfHost host_id ev
unfolding details_view
details_view-slide_over id rows host_id answer error ev honest shown =
    let event : Option EventWithTriage = elim (find (λ row. row.event_id == id) rows) [
      | none ↦ answer
      | some a ↦ some a
    ] in
    let (is_event, local) = chosen event host_id error ev (opened (truthy id) _ ev shown) in
    (
      named (find (λ row. row.event_id == id) rows) answer id ev (find-holds id rows) honest
          is_event,
      here host_id ev local,
    )
