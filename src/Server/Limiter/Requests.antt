-- ===== src/Server/Limiter/Requests.antt =====
-- The requests that the middleware of internal/api/v1/ratelimit.go serves.
use sigil_manager.Prelude.{
  ℕ, suc, ◌+◌, ◌*◌, ◌≤◌, String, Bool, true, false, not, [], ◌∷◌, ◌≡◌, refl, inl, inr, arith,
  eq_iff, ◌||◌, ◌&&◌, if◌then◌else◌, ◌==◌, string_eq, filter, Bool-cases,
}
use sigil_manager.Server.Limiter.{
  RateLimiter, new_rate_limiter, allow, Passage, served, too_many, middleware,
}
use sigil_manager.Server.Limiter.Bounds.{let_through, let_through-le, Rising}
use sigil_manager.Server.Limiter.Ends.{Attempts, after_attempts}

abbrev pub is_served : Passage → Bool
is_served served = true
is_served (too_many s) = false

module _ (is_loopback : String → Bool) where
  -- Whether the address of a request is exempt.
  abbrev pub is_exempt : String → Bool
  is_exempt ip = ip == "" || is_loopback ip

  abbrev pub after_requests : Attempts → RateLimiter → RateLimiter
  after_requests [] rl = rl
  after_requests ((now, ip) ∷ requests) rl =
      after_requests requests (middleware is_loopback now ip rl).1

  -- How many requests of an address reach the next handler.
  abbrev pub served_of : String → Attempts → RateLimiter → ℕ
  served_of k [] rl = 0
  served_of k ((now, ip) ∷ requests) rl =
      let (passage, rl') = middleware is_loopback now ip rl in
      let rest = served_of k requests rl' in if ip == k && is_served passage then suc rest else rest

  abbrev limited : Attempts → Attempts
  limited = filter (λ r. not (is_exempt r.1))

  middleware-exempt :
      (now : ℕ) (ip : String) (rl : RateLimiter)
      → is_exempt ip ≡ true
      → middleware is_loopback now ip rl ≡ (served, rl)
  unfolding middleware
  middleware-exempt now ip rl exempt = rw exempt refl

  middleware-after :
      (now : ℕ) (ip : String) (rl : RateLimiter)
      → is_exempt ip ≡ false
      → (middleware is_loopback now ip rl).1 ≡ (allow now ip rl).limiter
  unfolding middleware
  middleware-after now ip rl limit = elim (Bool-cases (allow now ip rl).ok) [
    | inl ok ↦ rw (limit, ok) refl
    | inr refused ↦ rw (limit, refused) refl
  ]

  middleware-allow :
      (now : ℕ) (ip : String) (rl : RateLimiter)
      → is_exempt ip ≡ false
      → is_served (middleware is_loopback now ip rl).0 ≡ (allow now ip rl).ok
  unfolding middleware
  middleware-allow now ip rl limit = elim (Bool-cases (allow now ip rl).ok) [
    | inl ok ↦ rw (limit, ok) refl
    | inr refused ↦ rw (limit, refused) refl
  ]

  after_requests-after_attempts :
      (requests : Attempts) (rl : RateLimiter)
      → after_requests requests rl ≡ after_attempts (limited requests) rl
  after_requests-after_attempts [] rl = refl
  after_requests-after_attempts ((now, ip) ∷ requests) rl = elim (Bool-cases (is_exempt ip)) [
    | inl exempt ↦
        rw (middleware-exempt now ip rl exempt, exempt) (after_requests-after_attempts requests rl)
    | inr limit ↦
        rw (middleware-after now ip rl limit, limit)
          (after_requests-after_attempts requests (allow now ip rl).limiter)
  ]

  served_of-let_through :
      (k : String) (requests : Attempts) (rl : RateLimiter)
      → is_exempt k ≡ false
      → served_of k requests rl ≡ let_through k (limited requests) rl
  served_of-let_through k [] rl h = refl
  served_of-let_through k ((now, ip) ∷ requests) rl h = elim (Bool-cases (is_exempt ip)) [
    | inl exempt ↦ elim (Bool-cases (ip == k)) [
      | inl own ↦
          let clash : is_exempt k ≡ true = rw (← (eq_iff ip k).0 own) exempt in
          absurd (ground (arith, clash, h))
      | inr other ↦
          rw (middleware-exempt now ip rl exempt, exempt, other)
            (served_of-let_through k requests rl h)
    ]
    | inr limit ↦
        rw
          (
            middleware-after now ip rl limit,
            middleware-allow now ip rl limit,
            limit,
            served_of-let_through k requests (allow now ip rl).limiter h,
          )
          refl
  ]

  limited-Rising :
      (from : ℕ) (requests : Attempts) (to : ℕ)
      → Rising from requests to
      → Rising from (limited requests) to
  limited-Rising from [] to h = h
  limited-Rising from ((now, ip) ∷ requests) to (le, h) = elim (Bool-cases (is_exempt ip)) [
    | inl exempt ↦ rw exempt (earlier (limited requests) (limited-Rising now requests to h))
    | inr limit ↦ rw limit (le, limited-Rising now requests to h)
  ]
    where
      earlier : (rs : Attempts) → Rising now rs to → Rising from rs to
      earlier [] h = omega (arith, le, h)
      earlier ((next, ip) ∷ rs) (later, h) = (omega (arith, le, later), h)

  -- If the maximum is at least one and an address is neither empty nor of the machine itself, then
  -- the middleware serves at most twice the maximum of its requests within any span of a window's
  -- length, at times that do not go back, whatever requests of this and of other addresses came
  -- before, at whatever times.
  pub served_of-le :
      (max window : ℕ) (before requests : Attempts) (k : String) (from to : ℕ)
      → 1 ≤ max
      → is_exempt k ≡ false
      → to ≤ from + window
      → Rising from requests to
      → served_of k requests (after_requests before (new_rate_limiter max window)) ≤ 2 * max
  served_of-le max window before requests k from to some_room limit span rising =
      let start = new_rate_limiter max window in
      rw
        (
          after_requests-after_attempts before start,
          served_of-let_through k requests (after_attempts (limited before) start) limit,
        )
        (let_through-le max window (limited before) (limited requests) k from to some_room span
          (limited-Rising from requests to rising))
