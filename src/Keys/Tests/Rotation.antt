-- ===== src/Keys/Tests/Rotation.antt =====
-- Tests and examples of the rotations of app/config.py.
use custorouter.Common.{ℕ, ◌<◌, ◌≡◌, refl, inl, arith, some, String, get_elem?}
use custorouter.Keys.State.{nry, qc, ok, pool}
use custorouter.Keys.Rotation.{get_current_key, rotate_key}
use custorouter.Keys.Rotation.Laws.{IsReady, IsRotated, rotate_key-IsRotated, rotate_key-IsReady}
use custorouter.Keys.Rotation.Cycle.{rotations, rotations_reach}
use custorouter.Keys.Tests.{env, busy}

rotate_twice : get_current_key env nry (rotations env nry 2 busy) ≡ ok (some "nara-one")
unfolding rotate_key get_current_key
rotate_twice = refl

rotate_key-IsRotated_example :
    (k : String) × ((rotate_key env nry busy).0 ≡ ok (some k))
    × IsRotated env nry busy (rotate_key env nry busy).1 k
rotate_key-IsRotated_example = rotate_key-IsRotated env nry busy (omega arith)

other_pool-IsReady : IsReady (pool qc (rotate_key env nry busy).1)
other_pool-IsReady = rotate_key-IsReady env nry qc busy (inl (omega arith))

rotations_reach_example :
    (m : ℕ) × (m < 3)
    × (k : String) × (get_elem? busy.nry_pool.keys 0 ≡ some k)
    × (get_current_key env nry (rotations env nry m busy) ≡ ok (some k))
rotations_reach_example = rotations_reach env nry busy 0 (omega arith) (omega arith) (omega arith)
