-- ===== src/Keys/Qwen.antt =====
-- app/config.py: the Qwen Cloud keys, whose quota belongs to a pair of a key and a model.
pub mod Scan
pub mod Select
pub mod Marks
pub mod Moved
use custorouter.Common.{
  ℕ, suc, zero, ◌+◌, ◌%◌, Bool, true, false, not, ◌&&◌, Option, none, some, String, List, [], ◌∷◌,
  if◌then◌else◌, is_empty, length, get_elem?, elem, or_else, Dict, lookup, insert, erase, str_eq,
  index_where,
}
use custorouter.Keys.State.{
  State, Status, invalid, active, qc, send, set_status, set_failovers, insert_exhaustion,
  delete_exhaustions,
}

-- `qc_model_failures.get(key, {}).get(model, False)`
pub is_qc_model_exhausted : String → String → State → Bool
is_qc_model_exhausted key model s =
    or_else (lookup model (or_else (lookup key s.qc_model_failures) [])) false

abbrev pub is_invalid : Option Status → Bool
is_invalid (some invalid) = true
is_invalid _ = false

-- The test of both loops: a key that is not quarantined and has quota left for the model.
pub is_eligible : State → String → String → Bool
unfolding is_qc_model_exhausted
is_eligible s model key =
    not (is_invalid (lookup key s.key_statuses)) && not (is_qc_model_exhausted key model s)

-- The loop of both selections: `count` slots, from `offset` behind `start`. The index is reduced
-- by the length of the list, so the read never fails in a list with keys.
pub scan : State → String → ℕ → ℕ → ℕ → Option (ℕ × String)
unfolding is_eligible
scan s model start offset zero = none
scan s model start offset (suc count) =
    let i = (start + offset) % length s.qc_pool.keys in
    let rest = scan s model start (offset + 1) count in
    elim (get_elem? s.qc_pool.keys i) [
      | none ↦ rest
      | some key ↦ if is_eligible s model key then some (i, key) else rest
    ]

-- `qc_model_key_index.get(model, 0) % len(QC_API_KEYS)`
abbrev pub start_of : String → State → ℕ
start_of model s = or_else (lookup model s.qc_model_key_index) 0 % length s.qc_pool.keys

pub get_current_qc_key_for_model : String → State → String × State
unfolding scan
get_current_qc_key_for_model model s =
    if is_empty s.qc_pool.keys
    then ("", s)
    else elim (scan s model (start_of model s) 0 (length s.qc_pool.keys)) [
      | none ↦ ("", s)
      | some (i, key) ↦ (key, record s { qc_model_key_index = insert model i s.qc_model_key_index })
    ]

-- The slot of the key that failed, if it is still in the pool, and else the model's own.
pub start_after : String → Option String → State → ℕ
start_after model none s = start_of model s
start_after model (some key) s =
    or_else (index_where (λ k. str_eq k key) s.qc_pool.keys) (start_of model s)

-- The new index, the counter, and its statement.
pub take_slot : String → ℕ → State → State
take_slot model i s =
    let counted = record s {
      qc_model_key_index = insert model i s.qc_model_key_index;
      failover_count = s.failover_count + 1;
    } in
    send (set_failovers counted.failover_count) counted

pub rotate_qc_key_for_model : String → Option String → State → Bool × State
unfolding scan start_after take_slot
rotate_qc_key_for_model model after_key s =
    if is_empty s.qc_pool.keys
    then (false, s)
    else elim (scan s model (start_after model after_key s) 1 (length s.qc_pool.keys)) [
      | none ↦ (false, s)
      | some (i, key) ↦ (true, take_slot model i s)
    ]

pub mark_qc_model_exhausted : String → String → State → State
mark_qc_model_exhausted key model s = send (insert_exhaustion key model) (record s {
  qc_model_failures =
      insert key (insert model true (or_else (lookup key s.qc_model_failures) []))
        s.qc_model_failures;
})

pub mark_qc_key_invalid : String → State → State
mark_qc_key_invalid key s =
    if elem key s.qc_pool.keys
    then send (set_status invalid key)
        (record s { key_statuses = insert key invalid s.key_statuses })
    else s

-- The loop of `reset_qc_model_failures` over the models' indices.
abbrev pub points_at : List String → String → ℕ → Bool
points_at keys key i = elim (get_elem? keys (i % length keys)) [
  | none ↦ false
  | some k ↦ str_eq k key
]

pub reset_indices : List String → String → Dict ℕ → Dict ℕ
reset_indices keys key [] = []
reset_indices keys key ((model, i) ∷ d) =
    (model, if points_at keys key i then 0 else i) ∷ reset_indices keys key d

unfoldable pub reset_qc_model_failures : String → State → State
unfolding reset_indices
reset_qc_model_failures key s =
    let cleared =
      send (delete_exhaustions key)
        (record s { qc_model_failures = erase key s.qc_model_failures }) in
    record cleared { qc_model_key_index = reset_indices s.qc_pool.keys key s.qc_model_key_index }
