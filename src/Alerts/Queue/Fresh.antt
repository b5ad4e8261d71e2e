-- ===== src/Alerts/Queue/Fresh.antt =====
-- Which rows flash as fresh, and for how long.
use sigil_manager.Prelude.{
  if◌then◌else◌, String, Bool, false, List, [], ◌∷◌, ◌≡◌, inl, inr, refl, ap, ◌∙◌, arith, ◌==◌,
  string_eq, nat_eq, Bool-cases, not, ◌&&◌, map, filter, length, eq_iff, ltb, includes, any,
}
use sigil_manager.Api.Fleet.{EventWithTriage}
use sigil_manager.Alerts.Queue.{Flash, on_events, on_timer}

abbrev pub ids : List EventWithTriage → List String
ids events = map (λ e. e.event_id) events

-- An id that the last render did not have.
abbrev pub is_new : Flash → String → Bool
is_new f id = not (includes f.previous_ids id)

-- The test of the effect on the size of its set.
some_left : {A : Type 0} (p : A → Bool) (xs : List A) → ltb 0 (length (filter p xs)) ≡ any p xs
some_left p [] = refl
some_left p (x ∷ xs) = ground (arith, some_left p xs)

includes-filter :
    (p : String → Bool) (xs : List String) (a : String)
    → includes (filter p xs) a ≡ (includes xs a && p a)
includes-filter p [] a = refl
includes-filter p (x ∷ xs) a = elim (Bool-cases (x == a)) [
  | inl same ↦ ground (arith, ap p ((eq_iff x a).0 same), includes-filter p xs a)
  | inr other ↦ ground (arith, includes-filter p xs a)
]

-- A refresh starts the timer exactly if it brings an event that the last render did not have to a
-- table that had some; then the rows that flash are those of these events, and otherwise they stay
-- as they were.
pub on_events-timer :
    (events : List EventWithTriage) (f : Flash)
    → let g = on_events events f in
      (g.previous_ids ≡ ids events)
      × (g.timer ≡ (any (is_new f) (ids events) && ltb 0 (length f.previous_ids)))
      × ((id : String)
          → includes g.fresh_ids id ≡ (
              if g.timer then includes (ids events) id && is_new f id else includes f.fresh_ids id))
unfolding on_events
on_events-timer events f =
    elim (Bool-cases (any (is_new f) (ids events) && ltb 0 (length f.previous_ids))) [
      | inl both ↦
          rw (some_left (is_new f) (ids events), both)
            (refl, refl, λ id. includes-filter (is_new f) (ids events) id)
      | inr quiet ↦ rw (some_left (is_new f) (ids events), quiet) (refl, refl, λ id. refl)
    ]

-- Refreshes that bring no new event, and the ticks of the clock, in any order.
pub data Quiet : Flash → Flash → Type 0 where
  still : {f : Flash} → Quiet f f
  refresh :
      {f g : Flash} (events : List EventWithTriage)
      → any (is_new f) (ids events) ≡ false
      → Quiet (on_events events f) g
      → Quiet f g
  tick : {f g : Flash} → Quiet (on_timer f) g → Quiet f g

quiet_events :
    (events : List EventWithTriage) (f : Flash)
    → any (is_new f) (ids events) ≡ false
    → on_events events f
      ≡ record { previous_ids = ids events; fresh_ids = f.fresh_ids; timer = false }
unfolding on_events
quiet_events events f none_new = rw (some_left (is_new f) (ids events), none_new) refl

quiet_timer : (f : Flash) → f.timer ≡ false → on_timer f ≡ f
unfolding on_timer
quiet_timer f off = ground (arith, off)

Quiet-kept : {f g : Flash} → Quiet f g → f.timer ≡ false → g.fresh_ids ≡ f.fresh_ids
Quiet-kept still off = refl
Quiet-kept {f} (refresh events none_new rest) off =
    let quiet = quiet_events events f none_new in
    Quiet-kept rest (ap (λ h. h.timer) quiet) ∙ ap (λ h. h.fresh_ids) quiet
Quiet-kept {f} (tick rest) off =
    let quiet = quiet_timer f off in
    Quiet-kept rest (ap (λ h. h.timer) quiet ∙ off) ∙ ap (λ h. h.fresh_ids) quiet

-- After a refresh without new events, the rows that flash go on flashing through any ticks of the
-- clock and any further refreshes without new events, in any order.
pub Quiet-fresh_ids :
    (events : List EventWithTriage) (f g : Flash)
    → any (is_new f) (ids events) ≡ false
    → Quiet (on_events events f) g
    → g.fresh_ids ≡ f.fresh_ids
Quiet-fresh_ids events f g none_new rest =
    let quiet = quiet_events events f none_new in
    Quiet-kept rest (ap (λ h. h.timer) quiet) ∙ ap (λ h. h.fresh_ids) quiet
