-- ===== src/Keys/Rotation/Cycle.antt =====
-- Repeated rotation of a built-in pool (app/config.py).
use custorouter.Common.{
  ℕ, zero, suc, ◌+◌, ◌%◌, ◌≤◌, ◌<◌, ◌≡◌, refl, ◌∙◌, arith, length, get_elem?, get_elem?-lt,
  mod-add-suc, distance, distance-lt, distance_reaches, some, String,
}
use custorouter.Keys.State.{Builtin, State, Env, ok, pool}
use custorouter.Keys.Rotation.{get_current_key, rotate_key}
use custorouter.Keys.Rotation.Laws.{rotate_key-IsRotated, get_current_key_at, mod-lt-length}

-- `m` rotations of one pool, one after another
abbrev pub rotations : Env → Builtin → ℕ → State → State
rotations env b zero s = s
rotations env b (suc m) s = rotations env b m (rotate_key env b s).1

rotations-pool :
    (env : Env) (b : Builtin) (m : ℕ) (s : State)
    → 2 ≤ length (pool b s).keys
    → (pool b s).index < length (pool b s).keys
    → ((pool b (rotations env b m s)).keys ≡ (pool b s).keys)
      × ((pool b (rotations env b m s)).index ≡ ((pool b s).index + m) % length (pool b s).keys)
rotations-pool env b zero s h lt = (refl, grind arith)
rotations-pool env b (suc m) s h lt =
    let (k, _, r) = rotate_key-IsRotated env b s h in
    let t : State = (rotate_key env b s).1 in
    let (kept, moved) =
      rotations-pool env b m t (rw r.keys_kept h)
        (rw (r.index_moved, r.keys_kept) (mod-lt-length ((pool b s).index + 1) (pool b s) h)) in
    (
      kept ∙ r.keys_kept,
      moved
          ∙ rw (r.index_moved, r.keys_kept)
              (mod-add-suc (pool b s).index m (length (pool b s).keys)),
    )

-- Rotation starves no key: from a ready pool of two keys or more, the key at any position `j` is
-- the current one after fewer rotations than the pool has keys.
pub rotations_reach :
    (env : Env) (b : Builtin) (s : State) (j : ℕ)
    → 2 ≤ length (pool b s).keys
    → (pool b s).index < length (pool b s).keys
    → j < length (pool b s).keys
    → (m : ℕ) × (m < length (pool b s).keys)
      × (k : String) × (get_elem? (pool b s).keys j ≡ some k)
      × (get_current_key env b (rotations env b m s) ≡ ok (some k))
rotations_reach env b s j h lt hj =
    let n = length (pool b s).keys in
    let m = distance n (pool b s).index j in
    let (k, e) = get_elem?-lt (pool b s).keys j hj in
    let (kept, moved) = rotations-pool env b m s h lt in
    (
      m,
      distance-lt n (pool b s).index j lt hj,
      k,
      e,
      get_current_key_at env b (rotations env b m s)
          (rw (kept, moved, distance_reaches n (pool b s).index j lt hj) e),
    )
