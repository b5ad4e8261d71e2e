-- ===== src/Checks/LimiterChecks.antt =====
-- The limiter of the login requests on concrete attempts.
use sigil_manager.Prelude.{◌≤◌, String, Bool, [], ◌∷◌, ◌≡◌, refl, ◌==◌, string_eq, arith}
use sigil_manager.Server.Limiter.{new_rate_limiter, allow, too_many, middleware}
use sigil_manager.Server.Limiter.Ends.{Attempts}
use sigil_manager.Server.Limiter.Requests.{after_requests, served_of, served_of-le}

abbrev here : String → Bool
here ip = ip == "127.0.0.1"

-- Two attempts for each window of ten; the machine itself and another address take part.
abbrev old_attempts : Attempts
old_attempts = (1, "10.0.0.1") ∷ (2, "127.0.0.1") ∷ (3, "10.0.0.2") ∷ []

abbrev new_attempts : Attempts
new_attempts =
    (9, "10.0.0.1")
    ∷ (10, "10.0.0.1")
    ∷ (11, "127.0.0.1")
    ∷ (12, "10.0.0.1")
    ∷ (13, "10.0.0.1")
    ∷ (14, "10.0.0.1")
    ∷ []

-- Across the border of two windows one more than the maximum is served.
border :
    served_of here "10.0.0.1" new_attempts
      (after_requests here old_attempts (new_rate_limiter 2 10))
    ≡ 3
unfolding middleware allow
border = refl

-- The last attempt waits until the window is over.
waits :
    (middleware here 14 "10.0.0.1" (
      after_requests here new_attempts
        (after_requests here old_attempts (new_rate_limiter 2 10)))).0
    ≡ too_many 1
unfolding middleware allow
waits = refl

served_of-le_example :
    served_of here "10.0.0.1" new_attempts
      (after_requests here old_attempts (new_rate_limiter 2 10))
    ≤ 4
served_of-le_example =
    served_of-le here 2 10 old_attempts new_attempts "10.0.0.1" 9 19 (omega arith) refl
      (omega arith)
      (
        omega arith,
        (omega arith, (omega arith, (omega arith, (omega arith, (omega arith, omega arith))))),
      )
