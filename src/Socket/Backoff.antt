-- ===== src/Socket/Backoff.antt =====
-- lib/api/ws.ts: the delays of scheduleReconnect.
use optiflow.Prelude.{ℕ, zero, suc, ◌+◌, ◌^◌, ◌≤◌, ◌≡◌, arith}
use native.Mathlib.Nat.{pow-suc}
use native.Mathlib.Numerals.{towards_suc}
use optiflow.Socket.{backoff, max_backoff_ms}

pow_pos : (n : ℕ) → 1 ≤ 2 ^ n
pow_pos zero = omega arith
pow_pos (suc n) = rw pow-suc (omega (arith, pow_pos n))

-- Every delay lies between one second and the maximum, and a later attempt never waits less; from
-- the sixth attempt in a row on it waits the maximum.
pub backoff_bounds :
    (n : ℕ)
    → (1000 ≤ backoff n)
      × (backoff n ≤ max_backoff_ms)
      × (backoff n ≤ backoff (suc n))
      × (backoff (n + 5) ≡ max_backoff_ms)
unfolding backoff
backoff_bounds n = (
  omega (arith, pow_pos n),
  omega arith,
  rw pow-suc (omega (arith, pow_pos n)),
  simp (towards_suc, pow-suc) (omega (arith, pow_pos n)),
)
