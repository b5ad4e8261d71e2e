-- ===== src/Server/Limiter/Ends.antt =====
-- How an attempt can end in internal/api/v1/ratelimit.go, and what it leaves of other addresses.
use sigil_manager.Prelude.{
  ℕ, ◌+◌, ◌-◌, String, true, false, Option, none, some, List, [], ◌∷◌, ◌≡◌, ◌⊎◌, refl, ◌∙◌, inl,
  inr, leb, ◌==◌, string_eq, Bool-cases,
}
use sigil_manager.Server.Limiter.{
  HitWindow, RateLimiter, Allowed, allow, allow_in, opened, get_hit, set_hit, is_over, prune,
}
use sigil_manager.Server.Limiter.Hits.{
  IsMap, set_hit-IsMap, prune-IsMap, get_hit-other, get_hit-prune, get_hit-prune_running,
}

-- Attempts, each with its time and address.
abbrev pub Attempts : Type 0
Attempts = List (ℕ × String)

abbrev pub after_attempts : Attempts → RateLimiter → RateLimiter
after_attempts [] rl = rl
after_attempts ((now, key) ∷ attempts) rl = after_attempts attempts (allow now key rl).limiter

-- The ways in which an attempt can end, with what it leaves.
module _ (Q : Allowed → Type 0) (now : ℕ) (key : String) (rl : RateLimiter) where
  pub allow-ends :
      ((get_hit key rl.hits ≡ none)
          ⊎ ((w : HitWindow) × (get_hit key rl.hits ≡ some w) × (is_over now w ≡ true))
        → Q (opened now key rl))
      → ((w : HitWindow)
          → get_hit key rl.hits ≡ some w
          → is_over now w ≡ false
          → leb rl.max w.count ≡ true
          → Q (record { ok = false; retry = w.reset - now; limiter = rl }))
      → ((w : HitWindow)
          → get_hit key rl.hits ≡ some w
          → is_over now w ≡ false
          → leb rl.max w.count ≡ false
          → Q (record {
            ok = true;
            retry = 0;
            limiter = record rl { hits = set_hit key (record w { count = w.count + 1 }) rl.hits };
          }))
      → Q (allow now key rl)
  unfolding allow
  allow-ends opens refuses counts = by_window (get_hit key rl.hits) refl
    where
      by_window : (o : Option HitWindow) → get_hit key rl.hits ≡ o → Q (allow_in now key rl o)
      by_window none free = opens (inl free)
      by_window (some w) found = elim (Bool-cases (is_over now w)) [
        | inl over ↦ rw over (opens (inr (w, found, over)))
        | inr runs ↦ elim (Bool-cases (leb rl.max w.count)) [
          | inl full ↦ rw (runs, full) (refuses w found runs full)
          | inr room ↦ rw (runs, room) (counts w found runs room)
        ]
      ]

pub allow-IsMap :
    (now : ℕ) (key : String) (rl : RateLimiter)
    → IsMap rl.hits
    → IsMap (allow now key rl).limiter.hits
allow-IsMap now key rl m =
    allow-ends (λ a. IsMap a.limiter.hits) now key rl
      (λ opens.
        set_hit-IsMap key (record { count = 1; reset = now + rl.window }) (prune now rl.hits)
          (prune-IsMap now rl.hits m))
      (λ w found runs full. m)
      λ w found runs room. set_hit-IsMap key (record w { count = w.count + 1 }) rl.hits m

pub after_attempts-IsMap :
    (attempts : Attempts) (rl : RateLimiter)
    → IsMap rl.hits
    → IsMap (after_attempts attempts rl).hits
after_attempts-IsMap [] rl m = m
after_attempts-IsMap ((now, key) ∷ attempts) rl m =
    after_attempts-IsMap attempts (allow now key rl).limiter (allow-IsMap now key rl m)

pub allow-max :
    (now : ℕ) (key : String) (rl : RateLimiter) → (allow now key rl).limiter.max ≡ rl.max
allow-max now key rl =
    allow-ends (λ a. a.limiter.max ≡ rl.max) now key rl (λ opens. refl) (λ w found runs full. refl)
      λ w found runs room. refl

pub allow-window :
    (now : ℕ) (key : String) (rl : RateLimiter) → (allow now key rl).limiter.window ≡ rl.window
allow-window now key rl =
    allow-ends (λ a. a.limiter.window ≡ rl.window) now key rl (λ opens. refl)
      (λ w found runs full. refl) λ w found runs room. refl

-- An attempt of another address leaves a window that is not over.
pub other-running :
    (now : ℕ) (key k : String) (w : HitWindow) (rl : RateLimiter)
    → (key == k) ≡ false
    → get_hit k rl.hits ≡ some w
    → is_over now w ≡ false
    → get_hit k (allow now key rl).limiter.hits ≡ some w
other-running now key k w rl other found runs =
    allow-ends (λ a. get_hit k a.limiter.hits ≡ some w) now key rl
      (λ opens.
        get_hit-other k key (record { count = 1; reset = now + rl.window }) (prune now rl.hits)
          other
        ∙ get_hit-prune_running now k w rl.hits found runs)
      (λ v there still full. found)
      λ v there still room.
        get_hit-other k key (record v { count = v.count + 1 }) rl.hits other ∙ found

-- An attempt of another address leaves the window, or prunes it.
pub other-kept :
    (now : ℕ) (key k : String) (rl : RateLimiter)
    → (key == k) ≡ false
    → IsMap rl.hits
    → let hits = (allow now key rl).limiter.hits in
      (get_hit k hits ≡ get_hit k rl.hits) ⊎ (get_hit k hits ≡ none)
other-kept now key k rl other m =
    allow-ends
      (λ a. (get_hit k a.limiter.hits ≡ get_hit k rl.hits) ⊎ (get_hit k a.limiter.hits ≡ none)) now
      key rl
      (λ opens.
        rw
          (get_hit-other k key (record { count = 1; reset = now + rl.window }) (prune now rl.hits)
            other)
          (get_hit-prune now k rl.hits m))
      (λ v there still full. inl refl)
      λ v there still room.
        inl (get_hit-other k key (record v { count = v.count + 1 }) rl.hits other)
