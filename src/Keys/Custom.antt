-- ===== src/Keys/Custom.antt =====
-- app/config.py: the keys of the providers that an administrator has added.
pub mod Laws
pub mod Removal
use custorouter.Common.{
  ℕ, ◌+◌, ◌*◌, ◌%◌, max, Bool, true, false, not, ◌&&◌, ◌||◌, Option, none, some, String, List, [],
  ◌∷◌, leb, ◌==◌, if◌then◌else◌, is_empty, length, get_elem?, elem, or_else, Dict, lookup, insert,
  erase, str_eq, remove_where,
}
use custorouter.Keys.State.{State, Env, Reply, send, delete_key}
use custorouter.Keys.Rotation.{activate}

-- `CUSTOM_PROVIDER_KEYS.get(prefix) or []`
abbrev pub keys_of : String → State → List String
keys_of prefix s = or_else (lookup prefix s.custom_provider_keys) []

-- `custom_key_index.get(prefix, 0)`
abbrev pub index_of : String → State → ℕ
index_of prefix s = or_else (lookup prefix s.custom_key_index) 0

-- The index is reduced by the length of the list, so the read never fails in a list with keys.
unfoldable pub get_current_custom_key : String → State → String
get_current_custom_key prefix s =
    let keys = keys_of prefix s in
    if is_empty keys then "" else or_else (get_elem? keys (index_of prefix s % length keys)) ""

abbrev pub microseconds : ℕ → ℕ
microseconds seconds = seconds * 1000000

pub mark_custom_rate_limited : ℕ → String → State → State
mark_custom_rate_limited now prefix s = record s {
  custom_rate_limited_at = insert prefix now s.custom_rate_limited_at;
}

-- A stamp of 0 is falsy, like a missing one.
pub is_custom_rate_limited : Env → ℕ → String → State → Bool
is_custom_rate_limited env now prefix s = elim (lookup prefix s.custom_rate_limited_at) [
  | none ↦ false
  | some stamp ↦
      if stamp == 0
      then false
      else if leb (stamp + microseconds env.custom_cooldown_seconds) now
      then false
      else true
]

pub rotate_custom_key : String → State → String × State
unfolding get_current_custom_key activate
rotate_custom_key prefix s =
    let keys = keys_of prefix s in
    let i = (index_of prefix s + 1) % length keys in
    let moved = record s { custom_key_index = insert prefix i s.custom_key_index } in
    if leb (length keys) 1
    then (get_current_custom_key prefix s, s)
    else (or_else (get_elem? keys i) "", activate (or_else (get_elem? keys i) "") moved)

-- `keys.remove(key)`, the index brought into range, and the status dropped.
pub drop_custom_key : String → String → State → State
drop_custom_key prefix key s =
    let keys = remove_where (λ k. str_eq k key) (keys_of prefix s) in
    record s {
      custom_provider_keys = insert prefix keys s.custom_provider_keys;
      custom_key_index = insert prefix (index_of prefix s % max (length keys) 1) s.custom_key_index;
      key_statuses = erase key s.key_statuses;
    }

pub remove_custom_key : String → String → State → Reply × State
unfolding get_current_custom_key drop_custom_key rotate_custom_key
remove_custom_key prefix key s =
    let was_active = str_eq (get_current_custom_key prefix s) key in
    let dropped = drop_custom_key prefix key s in
    let rotated =
      if was_active && not (is_empty (keys_of prefix dropped))
      then (rotate_custom_key prefix dropped).1
      else dropped in
    if elem key (keys_of prefix s)
    then ((true, "Key removed successfully"), send (delete_key key) rotated)
    else ((false, "Key not found"), s)
