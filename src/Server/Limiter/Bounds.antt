-- ===== src/Server/Limiter/Bounds.antt =====
-- How many attempts internal/api/v1/ratelimit.go lets through.
use sigil_manager.Prelude.{
  ℕ, suc, ◌+◌, ◌-◌, ◌*◌, ◌≤◌, String, true, false, Option, none, some, [], ◌∷◌, ◌≡◌, ◌⊎◌, refl, ap,
  ◌∙◌, inl, inr, arith, eq_iff, ◌&&◌, if◌then◌else◌, ◌==◌, string_eq, Bool-cases,
}
use sigil_manager.Server.Limiter.{
  HitWindow, RateLimiter, new_rate_limiter, allow, opened, get_hit, set_hit, is_over, prune,
}
use sigil_manager.Server.Limiter.Ends.{
  Attempts, after_attempts, allow-ends, allow-IsMap, after_attempts-IsMap, allow-max, allow-window,
  other-running, other-kept,
}
use sigil_manager.Server.Limiter.Hits.{IsMap, set_hit-IsMap, get_hit-own}

-- How many attempts of an address are let through.
abbrev pub let_through : String → Attempts → RateLimiter → ℕ
let_through k [] rl = 0
let_through k ((now, key) ∷ attempts) rl =
    let a = allow now key rl in
    let rest = let_through k attempts a.limiter in if key == k && a.ok then suc rest else rest

-- The clock at each attempt, from one time to another.
abbrev pub Rising : ℕ → Attempts → ℕ → Type 0
Rising from [] to = from ≤ to
Rising from ((now, key) ∷ attempts) to = (from ≤ now) × Rising now attempts to

Rising-le : (from : ℕ) (attempts : Attempts) (to : ℕ) → Rising from attempts to → from ≤ to
Rising-le from [] to h = h
Rising-le from ((now, key) ∷ attempts) to (le, h) = omega (arith, le, Rising-le now attempts to h)

no_open :
    (key : String) (rl : RateLimiter) (now : ℕ) (w : HitWindow)
    → get_hit key rl.hits ≡ some w
    → is_over now w ≡ false
    → (get_hit key rl.hits ≡ none)
      ⊎ ((v : HitWindow) × (get_hit key rl.hits ≡ some v) × (is_over now v ≡ true))
    → ⊥
no_open key rl now w mine runs (inl free) = absurd cc
no_open key rl now w mine runs (inr (v, there, over)) =
    let same : v ≡ w = cc in
    let clash : is_over now w ≡ true = rw same at over in absurd (ground (arith, clash, runs))

running-le :
    (k : String) (w : HitWindow) (attempts : Attempts) (rl : RateLimiter) (from to : ℕ)
    → get_hit k rl.hits ≡ some w
    → w.count ≤ rl.max
    → to ≤ w.reset
    → Rising from attempts to
    → let_through k attempts rl + w.count ≤ rl.max
running-le k w [] rl from to found low runs rising = omega (arith, low)
running-le k w ((now, key) ∷ attempts) rl from to found low runs (le, rising) =
    let still : is_over now w ≡ false = ground (arith, Rising-le now attempts to rising, runs) in
    elim (Bool-cases (key == k)) [
      | inr other ↦
          let rl' = (allow now key rl).limiter in
          let same = allow-max now key rl in
          rw other (
            omega (
              arith,
              same,
              running-le k w attempts rl' now to (other-running now key k w rl other found still)
                  (omega (arith, low, same)) runs rising,
            ))
      | inl own ↦
          let mine : get_hit key rl.hits ≡ some w = rw ((eq_iff key k).0 own) found in
          rw own (
            allow-ends
              (λ a.
                (if a.ok
                    then suc (let_through k attempts a.limiter)
                    else let_through k attempts a.limiter)
                  + w.count
                ≤ rl.max)
              now key rl (λ opens. absurd (no_open key rl now w mine still opens))
              (λ v there on full. running-le k w attempts rl now to found low runs rising)
              λ v there on room.
                let same : v ≡ w = cc in
                let more : HitWindow = record v { count = v.count + 1 } in
                let rl' : RateLimiter = record rl { hits = set_hit key more rl.hits } in
                let there_now = get_hit-own key k more rl.hits own in
                omega (
                  arith,
                  ap (λ x. x.count) same,
                  running-le k more attempts rl' now to there_now (ground (arith, room))
                      (omega (arith, runs, ap (λ x. x.reset) same)) rising,
                ))
    ]

-- What a window leaves to come, and a whole window more.
abbrev still_to_come : Option HitWindow → ℕ → ℕ
still_to_come none max = max
still_to_come (some w) max = (max - w.count) + max

still_to_come-max : (o : Option HitWindow) (max : ℕ) → max ≤ still_to_come o max
still_to_come-max none max = omega arith
still_to_come-max (some w) max = omega arith

still_to_come-le : (o : Option HitWindow) (max : ℕ) → still_to_come o max ≤ 2 * max
still_to_come-le none max = omega arith
still_to_come-le (some w) max = omega arith

after_attempts-same :
    (attempts : Attempts) (rl : RateLimiter)
    → let rl' = after_attempts attempts rl in (rl'.max ≡ rl.max) × (rl'.window ≡ rl.window)
after_attempts-same [] rl = (refl, refl)
after_attempts-same ((now, key) ∷ attempts) rl =
    let (m, w) = after_attempts-same attempts (allow now key rl).limiter in
    (m ∙ allow-max now key rl, w ∙ allow-window now key rl)

opened-le :
    (now : ℕ) (key k : String) (attempts : Attempts) (rl : RateLimiter) (to : ℕ)
    → (key == k) ≡ true
    → 1 ≤ rl.max
    → to ≤ now + rl.window
    → Rising now attempts to
    → suc (let_through k attempts (opened now key rl).limiter) ≤ rl.max
opened-le now key k attempts rl to own some_room span rising =
    let fresh : HitWindow = record { count = 1; reset = now + rl.window } in
    let rl' = (opened now key rl).limiter in
    let there = get_hit-own key k fresh (prune now rl.hits) own in
    omega (arith, running-le k fresh attempts rl' now to there some_room span rising)

span-le :
    (k : String) (attempts : Attempts) (rl : RateLimiter) (from to : ℕ)
    → IsMap rl.hits
    → 1 ≤ rl.max
    → to ≤ from + rl.window
    → Rising from attempts to
    → let_through k attempts rl ≤ still_to_come (get_hit k rl.hits) rl.max
span-le k [] rl from to m some_room span rising = omega arith
span-le k ((now, key) ∷ attempts) rl from to m some_room span (le, rising) =
    let next = allow now key rl in
    let same_max = allow-max now key rl in
    let same_window = allow-window now key rl in
    let span' : to ≤ now + rl.window = omega (arith, span, le) in
    elim (Bool-cases (key == k)) [
      | inr other ↦
          let rest =
            span-le k attempts next.limiter now to (allow-IsMap now key rl m)
              (omega (arith, some_room, same_max)) (omega (arith, span', same_window)) rising in
          rw other (elim (other-kept now key k rl other m) [
            | inl kept ↦ (let r = rw (kept, same_max) at rest in r)
            | inr gone ↦
                omega
                  (arith, still_to_come-max (get_hit k rl.hits) rl.max, rw (gone, same_max) at rest)
          ])
      | inl own ↦ rw own (
          allow-ends
            (λ a.
              (if a.ok
                then suc (let_through k attempts a.limiter)
                else let_through k attempts a.limiter)
              ≤ still_to_come (get_hit k rl.hits) rl.max)
            now key rl
            (λ opens. omega (
              arith,
              still_to_come-max (get_hit k rl.hits) rl.max,
              opened-le now key k attempts rl to own some_room span' rising,
            ))
            (λ v there on full. span-le k attempts rl now to m some_room span' rising)
            λ v there on room.
              let more : HitWindow = record v { count = v.count + 1 } in
              let rl' : RateLimiter = record rl { hits = set_hit key more rl.hits } in
              let rest =
                span-le k attempts rl' now to (set_hit-IsMap key more rl.hits m) some_room span'
                  rising in
              let before : get_hit k rl.hits ≡ some v = rw ((eq_iff key k).0 own) at there in
              rw before (ground (arith, room, rw (get_hit-own key k more rl.hits own) at rest)))
    ]

-- If the maximum is at least one, then of the attempts of an address within any span
-- of that length, at times that do not go back, at most twice the maximum are let through, whatever
-- attempts of this and of other addresses came before, at whatever times, and whichever windows were
-- pruned.
pub let_through-le :
    (max window : ℕ) (before attempts : Attempts) (k : String) (from to : ℕ)
    → 1 ≤ max
    → to ≤ from + window
    → Rising from attempts to
    → let_through k attempts (after_attempts before (new_rate_limiter max window)) ≤ 2 * max
let_through-le max window before attempts k from to some_room span rising =
    let start = new_rate_limiter max window in
    let rl = after_attempts before start in
    let (same_max, same_window) = after_attempts-same before start in
    let bound =
      span-le k attempts rl from to (after_attempts-IsMap before start tt)
        (omega (arith, some_room, same_max)) (omega (arith, span, same_window)) rising in
    omega (arith, bound, same_max, still_to_come-le (get_hit k rl.hits) rl.max)
