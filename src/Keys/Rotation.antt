-- ===== src/Keys/Rotation.antt =====
-- app/config.py: the current key of each built-in pool and its round-robin rotation.
--
-- The five `get_current_*_key` and the five `rotate_*_key` of the source are copies of one text
-- over five pairs of globals; here they are one definition over the pool, and its instances.
pub mod Laws
pub mod Cycle
use custorouter.Common.{
  ℕ, ◌+◌, ◌%◌, Option, none, some, String, List, leb, if◌then◌else◌, is_empty, length, get_elem?,
  insert,
}
use custorouter.Keys.State.{
  Builtin, bm, nry, dahl, qc, marketku, active, Pool, State, Env, Error, index_error, Result, ok,
  raised, pool, set_pool, send, set_status, set_failovers,
}

-- `keys[index]`, for an index that is never negative
abbrev pub key_at : List String → ℕ → Result (Option String)
key_at keys i = elim (get_elem? keys i) [ none ↦ raised index_error | some k ↦ ok (some k) ]

-- What an empty pool answers: the key of the environment, or no text.
abbrev pub key_of_empty : Env → Builtin → Option String
key_of_empty env bm = env.bluesminds_api_key
key_of_empty env _ = some ""

unfoldable pub get_current_key : Env → Builtin → State → Result (Option String)
get_current_key env b s =
    let p = pool b s in if is_empty p.keys then ok (key_of_empty env b) else key_at p.keys p.index

-- What follows the choice of a new key: its status, the counter, and the two statements.
unfoldable pub activate : String → State → State
activate k s =
    let counted = record s {
      key_statuses = insert k active s.key_statuses;
      failover_count = s.failover_count + 1;
    } in
    send (set_failovers counted.failover_count) (send (set_status active k) counted)

abbrev pub step_index : Pool → Pool
step_index p = record p { index = (p.index + 1) % length p.keys }

-- With two keys or more the list is not empty, so the new key is read by index.
unfoldable pub rotate_key : Env → Builtin → State → Result (Option String) × State
unfolding activate get_current_key
rotate_key env b s =
    let p = step_index (pool b s) in
    let moved = set_pool b p s in
    if leb (length p.keys) 1
    then (get_current_key env b s, s)
    else elim (get_elem? p.keys p.index) [
      | none ↦ (raised index_error, moved)
      | some k ↦ (ok (some k), activate k moved)
    ]

pub get_current_nr_key : Env → State → Result (Option String)
unfolding get_current_key
get_current_nr_key env s = get_current_key env nry s

pub get_current_dahl_key : Env → State → Result (Option String)
unfolding get_current_key
get_current_dahl_key env s = get_current_key env dahl s

pub get_current_qc_key : Env → State → Result (Option String)
unfolding get_current_key
get_current_qc_key env s = get_current_key env qc s

pub get_current_marketku_key : Env → State → Result (Option String)
unfolding get_current_key
get_current_marketku_key env s = get_current_key env marketku s

pub rotate_nr_key : Env → State → Result (Option String) × State
unfolding rotate_key
rotate_nr_key env s = rotate_key env nry s

pub rotate_dahl_key : Env → State → Result (Option String) × State
unfolding rotate_key
rotate_dahl_key env s = rotate_key env dahl s

pub rotate_qc_key : Env → State → Result (Option String) × State
unfolding rotate_key
rotate_qc_key env s = rotate_key env qc s

pub rotate_marketku_key : Env → State → Result (Option String) × State
unfolding rotate_key
rotate_marketku_key env s = rotate_key env marketku s
