-- ===== src/Proxy/Route/Cooldown.antt =====
-- How long the breaker of app/redis_store.py holds a candidate.
use custorouter.Common.{ℕ, zero, suc, ◌-◌, ◌*◌, ◌^◌, ◌≤◌, ◌≡◌, min, arith}
use native.Mathlib.Numerals.{unary_clauses}
use custorouter.Proxy.Route.{cooldown}

-- Powers of two, by the exponent.
power_double : (n : ℕ) → 2 ^ suc n ≡ 2 * 2 ^ n
power_double n = simp unary_clauses (omega arith)

one-le-power : (n : ℕ) → 1 ≤ 2 ^ n
one-le-power zero = omega arith
one-le-power (suc n) = omega (arith, one-le-power n, power_double n)

power-le : (m n : ℕ) → m ≤ n → 2 ^ m ≤ 2 ^ n
power-le zero n h = one-le-power n
power-le (suc m) zero h = absurd (omega arith)
power-le (suc m) (suc n) h =
    omega (arith, power-le m n (omega arith), power_double m, power_double n)

-- With a longest hold of ten seconds or more, which the setting guarantees, a hold lasts at least ten
-- seconds and at most the longest one and 2560 seconds, and no further failure shortens it.
pub cooldown_bounds :
    (longest failures : ℕ)
    → 10 ≤ longest
    → (10 ≤ cooldown longest failures)
      × (cooldown longest failures ≤ min longest 2560)
      × (cooldown longest failures ≤ cooldown longest (suc failures))
unfolding cooldown
cooldown_bounds longest failures h =
    let m = min (failures - 1) 8 in
    let k = min (suc failures - 1) 8 in
    let low = one-le-power m in
    let high = power-le m 8 (omega arith) in
    let step = power-le m k (omega arith) in
    (omega (arith, low), omega (arith, high), omega (arith, step))
