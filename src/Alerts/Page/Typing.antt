-- ===== src/Alerts/Page/Typing.antt =====
-- The shortcut binder at work on the alerts page: web/src/hooks/useShortcuts.ts with the bindings of
-- web/src/routes/_authed/alerts.tsx.
use sigil_manager.Prelude.{
  filter, not, sym, Bool-cases, inl, inr, ℕ, String, Bool, false, Option, none, some, [], ◌∷◌, ◌≡◌,
  refl, ap, ◌∙◌,
}
use sigil_manager.Shortcuts.{KeyboardEvent, press, expire}
use sigil_manager.Shortcuts.Presses.{
  History, IsChronological, ignored, leader_after, expected, waits, press_lem,
}
use sigil_manager.Alerts.Keyboard.{Page}
use sigil_manager.Alerts.Page.{Around, binding_of}
use sigil_manager.Alerts.Page.Frame.{press_anywhere}
use sigil_manager.Alerts.Page.Bindings.{is_there}

-- Which keys the page binds, for the binder.
unfoldable pub is_bound : String → Bool
is_bound key = is_there (binding_of key)

no_double_g : is_bound "g g" ≡ false
unfolding is_bound binding_of
no_double_g = refl

-- The presses that are not ignored.
abbrev pub heard : History → History
heard hist = filter (λ (now, e). not (ignored e)) hist

heard-loud :
    (t : ℕ) (e : KeyboardEvent) (hist : History)
    → ignored e ≡ false
    → heard ((t, e) ∷ hist) ≡ (t, e) ∷ heard hist
heard-loud t e hist loud = rw loud refl

-- A press that is not ignored decides alone whether the leader waits.
waits-loud :
    (t : ℕ) (e : KeyboardEvent) (hist : History) (now : ℕ)
    → ignored e ≡ false
    → waits ((t, e) ∷ hist) now ≡ waits ((t, e) ∷ []) now
waits-loud t e hist now loud = rw loud refl

waits-heard : (hist : History) (now : ℕ) → waits (heard hist) now ≡ waits hist now
waits-heard [] now = refl
waits-heard ((t, e) ∷ hist) now = elim (Bool-cases (ignored e)) [
  | inl quiet ↦ rw quiet (waits-heard hist now)
  | inr loud ↦
      ap (λ h. waits h now) (heard-loud t e hist loud)
      ∙ waits-loud t e (heard hist) now loud
      ∙ sym (waits-loud t e hist now loud)
]

-- `around` is what stands around the keyboard at a time.
module _ (iso : ℕ → String) (parse : String → Option ℕ) (around : ℕ → Around) (start : Page) where
  -- What the page does for what the binder runs.
  abbrev pub act : ℕ → Option String → Page → Page
  act now none p = p
  act now (some key) p = press_anywhere iso parse now key (around now) p

  -- The page after presses, the last one first, through the binder with its leader key and timer.
  unfoldable pub page_after_presses : History → Page
  page_after_presses [] = start
  page_after_presses ((now, e) ∷ hist) =
      act now (press is_bound now e (expire now (leader_after is_bound hist))).ran
        (page_after_presses hist)

  -- The same, by what each press means in its history.
  abbrev pub page_by_meaning : History → Page
  page_by_meaning [] = start
  page_by_meaning ((now, e) ∷ hist) = act now (expected is_bound hist now e) (page_by_meaning hist)

  by_meaning :
      (hist : History) → IsChronological hist → page_after_presses hist ≡ page_by_meaning hist
  unfolding page_after_presses
  by_meaning [] c = refl
  by_meaning ((now, e) ∷ hist) (later, c) =
      ap (λ ran. act now ran (page_after_presses hist))
        (press_lem is_bound hist now e no_double_g c later)
      ∙ ap (act now (expected is_bound hist now e)) (by_meaning hist c)

  expected-heard :
      (hist : History) (now : ℕ) (e : KeyboardEvent)
      → expected is_bound hist now e ≡ expected is_bound (heard hist) now e
  expected-heard hist now e = rw (waits-heard hist now) refl

  meaning-heard : (hist : History) → page_by_meaning hist ≡ page_by_meaning (heard hist)
  meaning-heard [] = refl
  meaning-heard ((now, e) ∷ hist) = elim (Bool-cases (ignored e)) [
    | inl quiet ↦ rw quiet (meaning-heard hist)
    | inr loud ↦
        ap (λ ran. act now ran (page_by_meaning hist)) (expected-heard hist now e)
        ∙ ap (act now (expected is_bound (heard hist) now e)) (meaning-heard hist)
        ∙ ap page_by_meaning (sym (heard-loud now e hist loud))
  ]

  -- After any presses in the order of time, the alerts page is the one that its handlers make of what
  -- each press means: Escape its own handler; a combination within a second of g; and else the key's
  -- own binding. Typing into a field or with a modifier, Escape excepted, might as well not have
  -- happened.
  pub page_after_presses_lem :
      (hist : History)
      → IsChronological hist
      → (page_after_presses hist ≡ page_by_meaning hist)
        × (page_after_presses hist ≡ page_by_meaning (heard hist))
  page_after_presses_lem hist c = (by_meaning hist c, by_meaning hist c ∙ meaning-heard hist)
