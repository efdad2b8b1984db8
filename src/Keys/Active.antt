-- ===== src/Keys/Active.antt =====
-- app/config.py: `set_active_key` and `reset_key_status`.
pub mod Pools
pub mod Statuses
pub mod Search
pub mod Laws
use custorouter.Common.{
  ℕ, Bool, true, false, not, Option, none, some, String, List, [], ◌∷◌, ◌++◌, if◌then◌else◌,
  is_empty, find, or_else, lookup, insert, str_eq, index_where, nonempty, has_prefix,
}
use custorouter.Keys.State.{Builtin, Status, active, standby, State, Reply, pool, send, set_status}
use custorouter.Keys.Qwen.{reset_qc_model_failures}
use custorouter.Keys.Add.{builtins, builtin_of, builtin_keys}
use custorouter.Keys.Remove.{find_key, branch_of, set_index}

-- The search over all five lists. A key of no text is falsy: the search goes on, and keeps the list.
pub search_lists :
    List Builtin → String → Option (Builtin × String) → State → Option (Builtin × String)
search_lists [] key_prefix last s = last
search_lists (b ∷ bs) key_prefix last s =
    elim (find (λ k. has_prefix k key_prefix) (pool b s).keys) [
      | none ↦ search_lists bs key_prefix last s
      | some k ↦ if nonempty k then some (b, k) else search_lists bs key_prefix (some (b, k)) s
    ]

abbrev pub from_search : Option (Builtin × String) → Option (Builtin × Option String)
from_search none = none
from_search (some (b, k)) = some (b, some k)

-- `target_list`, and `target_key` where the search over all lists has set it.
unfoldable pub target_of : String → Option String → State → Option (Builtin × Option String)
unfolding search_lists builtin_of
target_of key_prefix none s = from_search (search_lists builtins key_prefix none s)
target_of key_prefix (some provider) s = elim (builtin_of provider) [
  | some b ↦ some (b, none)
  | none ↦ from_search (search_lists builtins key_prefix none s)
]

-- `if not target_key`: the search in the one list
unfoldable pub key_in : String → Builtin → Option String → State → Option String
unfolding find_key
key_in key_prefix b none s = find_key key_prefix (pool b s).keys
key_in key_prefix b (some k) s = if nonempty k then some k else find_key key_prefix (pool b s).keys

abbrev pub is_active : Option Status → Bool
is_active (some active) = true
is_active _ = false

-- The loop that takes the active status from the list's keys, and one round of it.
pub demote_one : String → State → State
demote_one k s =
    if is_active (lookup k s.key_statuses)
    then send (set_status standby k) (record s { key_statuses = insert k standby s.key_statuses })
    else s

pub demote : List String → State → State
unfolding demote_one
demote [] s = s
demote (k ∷ ks) s = demote ks (demote_one k s)

pub promote : String → State → State
promote key s =
    send (set_status active key) (record s { key_statuses = insert key active s.key_statuses })

-- `idx = target_list.index(target_key)`, and the index of the first list with these contents.
pub point_at : String → List String → State → State
unfolding branch_of
point_at key keys s = elim (branch_of keys s) [
  | none ↦ s
  | some c ↦ set_index c (or_else (index_where (λ k. str_eq k key) keys) 0) s
]

pub set_active_key : String → Option String → State → Reply × State
unfolding target_of key_in demote promote point_at
set_active_key key_prefix provider s = elim (target_of key_prefix provider s) [
  | none ↦ ((false, "Target list not found"), s)
  | some (b, chosen) ↦
      if is_empty (pool b s).keys
      then ((false, "Target list not found"), s)
      else elim (key_in key_prefix b chosen s) [
        | none ↦ ((false, "Key not found"), s)
        | some key ↦ (
          (true, "Key set as Active"),
          point_at key (pool b s).keys (promote key (demote (pool b s).keys s)),
        )
      ]
]

pub reset_key_status : String → State → Reply × State
reset_key_status key_prefix s = elim (find (λ k. has_prefix k key_prefix) (builtin_keys s)) [
  | none ↦ ((false, "Key not found"), s)
  | some key ↦ (
    (true, "Key status reset to Standby"),
    send (set_status standby key) (
        reset_qc_model_failures key
          (record s { key_statuses = insert key standby s.key_statuses })),
  )
]
