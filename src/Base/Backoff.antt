-- ===== src/Base/Backoff.antt =====
-- The retry delay LEAST(300, 5 * power(2, attempt_count - 1)) * interval '1 second', in
-- milliseconds, which campaign preparations, webhook events, sync runs and capability refreshes share.
use Prim.Native.Nat.{ℕ, zero, suc, ◌*◌, ◌^◌, ◌≤◌, min}
use native.Mathlib.Omega.{arith}
use native.Mathlib.Nat.{pow-suc}

-- power(2, -1) is a half.
unfoldable pub backoff_ms : ℕ → ℕ
backoff_ms zero = 2500
backoff_ms (suc n) = 1000 * min 300 (5 * 2 ^ n)

pub pow_pos : (k : ℕ) → 1 ≤ 2 ^ k
pow_pos zero = omega arith
pow_pos (suc k) = omega (arith, pow_pos k, pow-suc 2 k)

pub backoff_bounds : (n : ℕ) → (2500 ≤ backoff_ms n) × (backoff_ms n ≤ 300000)
unfolding backoff_ms
backoff_bounds zero = omega arith
backoff_bounds (suc n) = (omega (arith, pow_pos n), omega arith)
