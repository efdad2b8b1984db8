-- ===== src/Keys/Rotation/Laws.antt =====
-- What one rotation of a built-in pool does (app/config.py).
use custorouter.Common.{
  ap, if◌then◌else◌, str_eq, ◌⊎◌, ℕ, ◌+◌, ◌%◌, ◌≤◌, ◌<◌, ◌≡◌, refl, inl, inr, some, String, [],
  arith, leb, length, get_elem?, get_elem?-lt, lookup, lookup-insert, eq_refl, Bool-cases, snoc,
  ◌∙◌,
}
use custorouter.Keys.State.{
  unless_same, Builtin, Builtin-discrete, bm, nry, dahl, qc, marketku, active, Pool, State, Env, ok,
  pool, set_pool, pool-set_pool_self, pool-set_pool_ne, set_status, set_failovers,
}
use custorouter.Keys.Rotation.{get_current_key, activate, step_index, rotate_key}

-- The index stands at a key, or at 0 in an empty pool.
abbrev pub IsReady : Pool → Type 0
IsReady p = (p.index < length p.keys) ⊎ ((p.keys ≡ []) × (p.index ≡ 0))

pub mod-lt-length : (i : ℕ) (p : Pool) → 2 ≤ length p.keys → i % length p.keys < length p.keys
mod-lt-length i p h = grind arith

pub get_current_key_at :
    (env : Env) (b : Builtin) (s : State) {k : String}
    → get_elem? (pool b s).keys (pool b s).index ≡ some k
    → get_current_key env b s ≡ ok (some k)
unfolding get_current_key
get_current_key_at env b s e = ground (arith)

pub rotate_key_eq :
    (env : Env) (b : Builtin) (s : State) {k : String}
    → 2 ≤ length (pool b s).keys
    → get_elem? (pool b s).keys (((pool b s).index + 1) % length (pool b s).keys) ≡ some k
    → rotate_key env b s ≡ (ok (some k), activate k (set_pool b (step_index (pool b s)) s))
unfolding rotate_key
rotate_key_eq env b s h e = ground arith

pub pool-activate : (b : Builtin) (k : String) (s : State) → pool b (activate k s) ≡ pool b s
unfolding activate
pool-activate bm k s = refl
pool-activate nry k s = refl
pool-activate dahl k s = refl
pool-activate qc k s = refl
pool-activate marketku k s = refl

pub key_statuses-set_pool :
    (b : Builtin) (p : Pool) (s : State)
    → ((set_pool b p s).key_statuses ≡ s.key_statuses)
      × ((set_pool b p s).failover_count ≡ s.failover_count)
      × ((set_pool b p s).writes ≡ s.writes)
key_statuses-set_pool bm p s = (refl, refl, refl)
key_statuses-set_pool nry p s = (refl, refl, refl)
key_statuses-set_pool dahl p s = (refl, refl, refl)
key_statuses-set_pool qc p s = (refl, refl, refl)
key_statuses-set_pool marketku p s = (refl, refl, refl)

-- The state after the rotation of `b` to `k`, against the state before it.
pub record IsRotated (env : Env) (b : Builtin) (s t : State) (k : String) : Type 0 where
  pub listed : get_elem? (pool b s).keys (((pool b s).index + 1) % length (pool b s).keys) ≡ some k
  pub current : get_current_key env b t ≡ ok (some k)
  pub keys_kept : (pool b t).keys ≡ (pool b s).keys
  pub index_moved : (pool b t).index ≡ ((pool b s).index + 1) % length (pool b s).keys
  pub others_kept : (c : Builtin) → (b ≡ c) ⊎ (pool c t ≡ pool c s)
  pub marked : lookup k t.key_statuses ≡ some active
  pub statuses :
      (j : String)
      → lookup j t.key_statuses ≡ (if str_eq k j then some active else lookup j s.key_statuses)
  pub counted : t.failover_count ≡ s.failover_count + 1
  pub sent :
      t.writes ≡ snoc (snoc s.writes (set_status active k)) (set_failovers (s.failover_count + 1))

activate-IsRotated :
    (env : Env) (b : Builtin) (s : State) {k : String}
    → get_elem? (pool b s).keys (((pool b s).index + 1) % length (pool b s).keys) ≡ some k
    → IsRotated env b s (activate k (set_pool b (step_index (pool b s)) s)) k
unfolding activate
activate-IsRotated env b s {k} e =
    let moved : State = set_pool b (step_index (pool b s)) s in
    let same : pool b (activate k moved) ≡ step_index (pool b s) =
      pool-activate b k moved ∙ pool-set_pool_self b (step_index (pool b s)) s in
    let kept = key_statuses-set_pool b (step_index (pool b s)) s in
    record {
      listed = e;
      current = get_current_key_at env b (activate k moved) (rw same e);
      keys_kept = rw same;
      index_moved = rw same;
      others_kept = λ c.
          unless_same b c
            (λ h. pool-activate c k moved ∙ pool-set_pool_ne b c (step_index (pool b s)) s h);
      marked = rw (lookup-insert, eq_refl);
      statuses = λ j.
          lookup-insert k j active moved.key_statuses
          ∙ ap (λ d. if str_eq k j then some active else lookup j d) kept.0;
      counted = rw (kept.1);
      sent = rw (kept.1, kept.2);
    }

-- With two keys or more, a rotation never raises: it returns the next key of the pool, cyclically,
-- which is then the current one, is marked active and counted as one failover; no other pool, key
-- or status changes, and exactly two statements are sent.
pub rotate_key-IsRotated :
    (env : Env) (b : Builtin) (s : State)
    → 2 ≤ length (pool b s).keys
    → (k : String) × ((rotate_key env b s).0 ≡ ok (some k))
      × IsRotated env b s (rotate_key env b s).1 k
rotate_key-IsRotated env b s h =
    let (k, e) =
      get_elem?-lt (pool b s).keys _ (mod-lt-length ((pool b s).index + 1) (pool b s) h) in
    let eq = rotate_key_eq env b s h e in (k, rw eq, rw eq (activate-IsRotated env b s e))

-- With one key or none a rotation changes nothing and answers the current key.
pub rotate_key_short :
    (env : Env) (b : Builtin) (s : State)
    → length (pool b s).keys ≤ 1
    → rotate_key env b s ≡ (get_current_key env b s, s)
unfolding rotate_key
rotate_key_short env b s h = ground arith

IsRotated-IsReady :
    (env : Env) (b : Builtin) (s t : State) {k : String}
    → 2 ≤ length (pool b s).keys
    → IsRotated env b s t k
    → IsReady (pool b t)
IsRotated-IsReady env b s t h r =
    inl (rw (r.index_moved, r.keys_kept) (mod-lt-length ((pool b s).index + 1) (pool b s) h))

-- A pool that is ready stays ready.
pub rotate_key-IsReady :
    (env : Env) (b c : Builtin) (s : State)
    → IsReady (pool c s)
    → IsReady (pool c (rotate_key env b s).1)
rotate_key-IsReady env b c s h = elim (Bool-cases (leb (length (pool b s).keys) 1)) [
  | inl short ↦ rw (rotate_key_short env b s (ground arith)) h
  | inr long ↦
      let (k, _, r) = rotate_key-IsRotated env b s (ground arith) in
      elim (Builtin-discrete b c) [
        | yes same ↦ rw (← same) (IsRotated-IsReady env b s _ (ground arith) r)
        | no differs ↦ elim (r.others_kept c) [
          | inl same ↦ absurd (differs same)
          | inr kept ↦ rw kept h
        ]
      ]
]
