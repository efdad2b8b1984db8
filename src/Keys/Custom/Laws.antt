-- ===== src/Keys/Custom/Laws.antt =====
-- What the rotation and the rate-limit hold of a custom provider's keys do (app/config.py).
use native.Mathlib.Nat.{mod-eq_of_lt}
use custorouter.Common.{
  ℕ, ◌+◌, ◌%◌, ◌≤◌, ◌<◌, ◌≡◌, some, String, arith, leb, if◌then◌else◌, length, get_elem?,
  get_elem?-lt, lookup, lookup-insert, eq_iff, eq_refl, str_eq, not,
}
use custorouter.Keys.State.{State, Env, active}
use custorouter.Keys.Rotation.{activate}
use custorouter.Keys.Custom.{
  keys_of, index_of, get_current_custom_key, mark_custom_rate_limited, is_custom_rate_limited,
  rotate_custom_key, microseconds,
}

-- From a rate-limit hit at `now` a provider's pool is held for the cooldown and not a moment longer,
-- and the hit holds no other provider.
pub is_custom_rate_limited-mark :
    (env : Env) (now later : ℕ) (prefix other : String) (s : State)
    → 0 < now
    → is_custom_rate_limited env later other (mark_custom_rate_limited now prefix s) ≡ (
        if str_eq prefix other
        then not (leb (now + microseconds env.custom_cooldown_seconds) later)
        else is_custom_rate_limited env later other s)
unfolding is_custom_rate_limited mark_custom_rate_limited
is_custom_rate_limited-mark env now later prefix other s h =
    ground (arith, lookup-insert prefix other now s.custom_rate_limited_at)

pub mod-lt-len : (i n : ℕ) → 2 ≤ n → i % n < n
mod-lt-len i n h = grind arith

-- Where the index of a provider stands after a rotation.
pub rotate_custom_key_place :
    (prefix : String) (s : State)
    → 2 ≤ length (keys_of prefix s)
    → (keys_of prefix (rotate_custom_key prefix s).1 ≡ keys_of prefix s)
      × (index_of prefix (rotate_custom_key prefix s).1
          ≡ (index_of prefix s + 1) % length (keys_of prefix s))
unfolding rotate_custom_key activate
rotate_custom_key_place prefix s h =
    let i : ℕ = (index_of prefix s + 1) % length (keys_of prefix s) in
    (ground arith, ground (arith, lookup-insert prefix prefix i s.custom_key_index, eq_refl prefix))

pub get_current_custom_key_at :
    (prefix : String) (s : State) {k : String}
    → get_elem? (keys_of prefix s) (index_of prefix s % length (keys_of prefix s)) ≡ some k
    → get_current_custom_key prefix s ≡ k
unfolding get_current_custom_key
get_current_custom_key_at prefix s e = ground arith

-- With two keys or more, a rotation takes the next key of the provider's pool, cyclically: it is the
-- answer, the current key afterwards, and active. The pool of every other provider keeps its current
-- key.
pub rotate_custom_key_lem :
    (prefix : String) (s : State)
    → 2 ≤ length (keys_of prefix s)
    → (k : String) × (get_elem?
          (keys_of prefix s)
          ((index_of prefix s + 1) % length (keys_of prefix s))
        ≡ some k)
      × ((rotate_custom_key prefix s).0 ≡ k)
      × (get_current_custom_key prefix (rotate_custom_key prefix s).1 ≡ k)
      × (lookup k (rotate_custom_key prefix s).1.key_statuses ≡ some active)
      × ((rotate_custom_key prefix s).1.failover_count ≡ s.failover_count + 1)
      × ((p : String)
          → get_current_custom_key p (rotate_custom_key prefix s).1
            ≡ (if str_eq prefix p then k else get_current_custom_key p s))
unfolding rotate_custom_key get_current_custom_key
rotate_custom_key_lem prefix s h =
    let n : ℕ = length (keys_of prefix s) in
    let i : ℕ = (index_of prefix s + 1) % n in
    let (k, e) = get_elem?-lt (keys_of prefix s) i (mod-lt-len (index_of prefix s + 1) n h) in
    let there = lookup-insert prefix prefix i s.custom_key_index in
    let twice = mod-eq_of_lt {n = i} {m = n} (mod-lt-len (index_of prefix s + 1) n h) in
    (
      k,
      e,
      ground arith,
      ground (arith, eq_refl prefix),
      ground (arith, lookup-insert k k active s.key_statuses, eq_refl k),
      ground arith,
      λ p. ground (arith, lookup-insert prefix p i s.custom_key_index, eq_iff prefix p),
    )
