-- ===== src/Shortcuts/Presses.antt =====
-- What the binder ignores, and for how long the leader key waits.
use sigil_manager.Prelude.{
  ◌∙◌, ℕ, ◌+◌, ◌≤◌, String, Bool, true, false, Option, none, some, List, [], ◌∷◌, ◌≡◌, ◌⊎◌, ◌||◌,
  ◌&&◌, not, refl, ap, arith, if◌then◌else◌, ◌==◌, string_eq, eq_iff, leb, ltb, Bool-cases, inl,
  inr, template,
}
use sigil_manager.Shortcuts.{
  KeyboardEvent, Leader, Pressed, press, expire, is_typing_target, leader_timeout_ms,
}

-- A press that the binder leaves alone: not Escape, and typed into a field or with a modifier.
abbrev pub ignored : KeyboardEvent → Bool
ignored e =
    not (e.key == "Escape") && (is_typing_target e.target || e.ctrl_key || e.meta_key || e.alt_key)

abbrev pub idle : Leader
idle = record { active = false; timer = none }

-- The presses so far, the last one first, each with its time.
abbrev pub History : Type 0
History = List (ℕ × KeyboardEvent)

abbrev pub last_time : History → ℕ
last_time [] = 0
last_time ((t, e) ∷ hist) = t

abbrev pub IsChronological : History → Type 0
IsChronological [] = Unit
IsChronological ((t, e) ∷ hist) = (last_time hist ≤ t) × IsChronological hist

-- Whether the leader waits at the time `now`: the last press that was not ignored is the key g,
-- less than the timeout ago.
abbrev pub waits : History → ℕ → Bool
waits [] now = false
waits ((t, e) ∷ hist) now =
    let before = waits hist now in
    if ignored e then before else e.key == "g" && ltb now (t + leader_timeout_ms)

abbrev waiting : ℕ → Leader
waiting now = record { active = true; timer = some (now + leader_timeout_ms) }

-- The timer runs exactly while the leader is active.
abbrev IsTimed : Leader → Type 0
IsTimed l = (l ≡ idle) ⊎ ((t : ℕ) × (l ≡ record { active = true; timer = some t }))

module _ (handlers : String → Bool) where
  unfoldable pub leader_after : History → Leader
  leader_after [] = idle
  leader_after ((t, e) ∷ hist) = (press handlers t e (expire t (leader_after hist))).leader

  press-ignored :
      (now : ℕ) (e : KeyboardEvent) (l : Leader)
      → ignored e ≡ true
      → press handlers now e l ≡ record { leader = l; ran = none }
  unfolding press
  press-ignored now e l h = ground arith

  -- A press that is not ignored leaves the leader waiting if it is the key g, and else idle.
  press_other :
      (now : ℕ) (e : KeyboardEvent) (l : Leader)
      → handlers "g g" ≡ false
      → ignored e ≡ false
      → IsTimed l
      → (press handlers now e l).leader ≡ (if e.key == "g" then waiting now else idle)
  unfolding press
  press_other now e l no_gg h w = elim (Bool-cases (e.key == "g")) [
    | inl is_g ↦
        let same = (eq_iff e.key "g").0 is_g in
        let not_escape : (e.key == "Escape") ≡ false = rw same in
        let no_combo : handlers (template ("g " ∷ e.key ∷ [])) ≡ false = rw same no_gg in
        rw is_g (ground arith)
    | inr other ↦ rw other (elim (Bool-cases (e.key == "Escape")) [
      | inl escape ↦ ground arith
      | inr key ↦ ground arith
    ])
  ]

  expire-IsTimed : (now : ℕ) (l : Leader) → IsTimed l → IsTimed (expire now l)
  unfolding expire
  expire-IsTimed now l (inl e) = inl (ground arith)
  expire-IsTimed now l (inr (t, e)) = elim (Bool-cases (leb t now)) [
    | inl late ↦ inl (ground arith)
    | inr early ↦ inr (t, ground arith)
  ]

  press-IsTimed :
      (now : ℕ) (e : KeyboardEvent) (l : Leader)
      → handlers "g g" ≡ false
      → IsTimed l
      → IsTimed (press handlers now e l).leader
  press-IsTimed now e l no_gg w = elim (Bool-cases (ignored e)) [
    | inl quiet ↦ rw (press-ignored now e l quiet) w
    | inr heard ↦ rw (press_other now e l no_gg heard w) (elim (Bool-cases (e.key == "g")) [
      | inl is_g ↦ rw is_g (inr (now + leader_timeout_ms, refl))
      | inr other ↦ rw other (inl refl)
    ])
  ]

  leader_after-IsTimed : (hist : History) → handlers "g g" ≡ false → IsTimed (leader_after hist)
  unfolding leader_after
  leader_after-IsTimed [] no_gg = inl refl
  leader_after-IsTimed ((t, e) ∷ hist) no_gg =
      press-IsTimed t e (expire t (leader_after hist)) no_gg
        (expire-IsTimed t (leader_after hist) (leader_after-IsTimed hist no_gg))

  expire_twice :
      (now t : ℕ) (l : Leader)
      → IsTimed l
      → t ≤ now
      → (expire now (expire t l)).active ≡ (expire now l).active
  unfolding expire
  expire_twice now t l w h = ground arith

  expire-waiting : (now t : ℕ) → (expire now (waiting t)).active ≡ ltb now (t + leader_timeout_ms)
  unfolding expire
  expire-waiting now t = ground arith

  expire-idle : (now : ℕ) → (expire now idle).active ≡ false
  unfolding expire
  expire-idle now = refl

  active-waits :
      (hist : History) (now : ℕ)
      → handlers "g g" ≡ false
      → IsChronological hist
      → last_time hist ≤ now
      → (expire now (leader_after hist)).active ≡ waits hist now
  unfolding leader_after
  active-waits [] now no_gg c h = expire-idle now
  active-waits ((t, e) ∷ hist) now no_gg (before, c) h =
      let l = leader_after hist in
      let timed = leader_after-IsTimed hist no_gg in
      elim (Bool-cases (ignored e)) [
        | inl quiet ↦
            rw (quiet, ap (λ (p : Pressed). p.leader) (press-ignored t e (expire t l) quiet))
              (expire_twice now t l timed h ∙ active-waits hist now no_gg c (omega arith))
        | inr heard ↦
            rw (heard, press_other t e (expire t l) no_gg heard (expire-IsTimed t l timed))
              (elim (Bool-cases (e.key == "g")) [
                | inl is_g ↦ rw is_g (expire-waiting now t)
                | inr other ↦ rw other (expire-idle now)
              ])
      ]

  -- What a press runs, said without the timer.
  abbrev pub expected : History → ℕ → KeyboardEvent → Option String
  expected hist now e =
      if ignored e
      then none
      else if e.key == "Escape"
      then (if handlers "Escape" then some "Escape" else none)
      else if waits hist now && handlers (template ("g " ∷ e.key ∷ []))
      then some (template ("g " ∷ e.key ∷ []))
      else if e.key == "g"
      then none
      else if handlers e.key
      then some e.key
      else none

  -- After presses in the order of time, with no binding "g g": a press with a modifier or into a
  -- field runs nothing unless it is Escape; Escape runs its handler; a key runs its combination with
  -- g if the last press that counts was g, less than a second ago, and such a binding exists; any
  -- other key than g runs its own binding.
  pub press_lem :
      (hist : History) (now : ℕ) (e : KeyboardEvent)
      → handlers "g g" ≡ false
      → IsChronological hist
      → last_time hist ≤ now
      → (press handlers now e (expire now (leader_after hist))).ran ≡ expected hist now e
  unfolding press
  press_lem hist now e no_gg c h = ground (arith, active-waits hist now no_gg c h)
