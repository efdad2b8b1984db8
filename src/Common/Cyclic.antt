-- ===== src/Common/Cyclic.antt =====
-- Positions in a ring of `n` places.
use Prim.Native.Nat.{ℕ, suc, ◌+◌, ◌-◌, ◌%◌, ◌<◌}
use mathlib.Core.Path.{◌≡◌, ap}
use native.Mathlib.Omega.{arith}
use native.Mathlib.Nat.{mod-add-mod, mod-eq_of_lt, add-mod_right}
use custorouter.Common.Tests.{ltb, if◌then◌else◌}

pub mod-add-suc : (i m n : ℕ) → ((i + 1) % n + m) % n ≡ (i + suc m) % n
mod-add-suc i m n = rw mod-add-mod (ap (λ (t : ℕ). t % n) (omega arith))

-- How far `j` lies behind `i`.
abbrev pub distance : ℕ → ℕ → ℕ → ℕ
distance n i j = if ltb j i then j + n - i else j - i

pub distance-lt : (n i j : ℕ) → i < n → j < n → distance n i j < n
distance-lt n i j hi hj = ground arith

pub distance_reaches : (n i j : ℕ) → i < n → j < n → (i + distance n i j) % n ≡ j
distance_reaches n i j hi hj = ground (arith, mod-eq_of_lt {n = j} {m = n} hj, add-mod_right j n)
