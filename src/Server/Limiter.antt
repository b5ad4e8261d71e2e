-- ===== src/Server/Limiter.antt =====
-- The limiter of the login requests, internal/api/v1/ratelimit.go. Times are nanoseconds; the address
-- of a caller is a text, and `is_loopback` says which ones are of the machine itself.
pub mod Hits
pub mod Ends
pub mod Bounds
pub mod Requests
use sigil_manager.Prelude.{
  ℕ, zero, suc, ◌+◌, ◌-◌, ◌/◌, String, Bool, true, false, not, Option, none, some, List, [], ◌∷◌,
  ltb, leb, ◌||◌, if◌then◌else◌, ◌==◌, string_eq, filter, length,
}

pub record HitWindow : Type 0 where
  pub count : ℕ
  pub reset : ℕ

-- The map from an address to its window, each address once.
abbrev pub Hits : Type 0
Hits = List (String × HitWindow)

pub record RateLimiter : Type 0 where
  pub max : ℕ
  pub window : ℕ
  pub hits : Hits

abbrev pub new_rate_limiter : ℕ → ℕ → RateLimiter
new_rate_limiter max window = record { max = max; window = window; hits = [] }

-- `rl.hits[key]`
abbrev pub get_hit : String → Hits → Option HitWindow
get_hit key [] = none
get_hit key ((k, w) ∷ hits) = let rest = get_hit key hits in if k == key then some w else rest

-- `rl.hits[key] = w`
abbrev pub set_hit : String → HitWindow → Hits → Hits
set_hit key w hits = (key, w) ∷ filter (λ h. not (h.0 == key)) hits

-- `now.After(w.reset)`
abbrev pub is_over : ℕ → HitWindow → Bool
is_over now w = ltb w.reset now

-- The windows that are over go, where there are many.
abbrev pub prune : ℕ → Hits → Hits
prune now hits = if ltb 1024 (length hits) then filter (λ h. not (is_over now h.1)) hits else hits

-- Whether an attempt is let through, with the time to wait, and the limiter afterwards.
pub record Allowed : Type 0 where
  pub ok : Bool
  pub retry : ℕ
  pub limiter : RateLimiter

abbrev pub opened : ℕ → String → RateLimiter → Allowed
opened now key rl = record {
  ok = true;
  retry = 0;
  limiter = record rl {
    hits = set_hit key (record { count = 1; reset = now + rl.window }) (prune now rl.hits);
  };
}

abbrev pub allow_in : ℕ → String → RateLimiter → Option HitWindow → Allowed
allow_in now key rl none = opened now key rl
allow_in now key rl (some w) =
    if is_over now w
    then opened now key rl
    else if leb rl.max w.count
    then record { ok = false; retry = w.reset - now; limiter = rl }
    else record {
      ok = true;
      retry = 0;
      limiter = record rl { hits = set_hit key (record w { count = w.count + 1 }) rl.hits };
    }

unfoldable pub allow : ℕ → String → RateLimiter → Allowed
allow now key rl = allow_in now key rl (get_hit key rl.hits)

-- What the middleware does with a request: the next handler, or 429 with seconds to wait.
pub data Passage : Type 0 where
  served : Passage
  too_many : (retry_after : ℕ) → Passage

unfoldable pub middleware :
    (is_loopback : String → Bool) → ℕ → String → RateLimiter → Passage × RateLimiter
unfolding allow
middleware is_loopback now ip rl =
    let a = allow now ip rl in
    if ip == "" || is_loopback ip
    then (served, rl)
    else if not a.ok
    then (too_many (a.retry / 1000000000 + 1), a.limiter)
    else (served, a.limiter)
