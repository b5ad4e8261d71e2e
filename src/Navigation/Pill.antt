-- ===== src/Navigation/Pill.antt =====
-- When the pill says that the server is connected.
use sigil_manager.Prelude.{ℕ, ◌+◌, ◌≤◌, false, none, ◌≡◌, ◌↔◌, arith, ◌&&◌, not}
use sigil_manager.Navigation.{connected, QueryState, nav_state}

-- The health answer is there and not older than half a minute, and the read request succeeded.
pub record IsConnected (now : ℕ) (healthz meta : QueryState) : Type 0 where
  pub healthy : healthz.error ≡ none
  pub readable : meta.error ≡ none
  pub settled : meta.is_pending ≡ false
  pub answered : (healthz.is_pending && not healthz.has_data) ≡ false
  pub recent : now ≤ healthz.data_updated_at + 30000

-- The pill says "Connected" exactly when the last health request succeeded, has its answer, which
-- is at most half a minute old, and the read request has settled without an error.
pub nav_state-IsConnected :
    (now : ℕ) (healthz meta : QueryState)
    → (nav_state now healthz meta ≡ connected) ↔ IsConnected now healthz meta
unfolding nav_state
nav_state-IsConnected now healthz meta = (
  λ h. record {
    healthy = ground arith;
    readable = ground arith;
    settled = ground arith;
    answered = ground arith;
    recent = ground arith;
  },
  λ c. ground (arith, c.healthy, c.readable, c.settled, c.answered, c.recent),
)
