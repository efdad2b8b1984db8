-- ===== src/Keys/Remove.antt =====
-- app/config.py: `remove_api_key` and `bulk_remove_api_keys`.
pub mod Locate
pub mod Laws
pub mod Current
use custorouter.Common.{
  ℕ, Bool, true, false, not, ◌&&◌, Option, none, some, String, List, [], ◌∷◌, leb, if◌then◌else◌,
  length, find, or_else, snoc, Dict, erase, str_eq, index_where, remove_where, nonempty, has_prefix,
}
use custorouter.Keys.State.{
  Builtin, Pool, State, Env, Reply, Result, ok, raised, pool, set_pool, send, delete_key,
}
use custorouter.Keys.Rotation.{get_current_key, rotate_key}
use custorouter.Keys.Custom.{remove_custom_key}
use custorouter.Keys.Add.{builtins}

-- The loop over one pool. A key of no text is falsy, and so counts as not found.
unfoldable pub find_key : String → List String → Option String
find_key key_prefix keys = elim (find (λ k. has_prefix k key_prefix) keys) [
  | none ↦ none
  | some k ↦ if nonempty k then some k else none
]

-- The five loops, each run only while no key is found.
pub locate_from : List Builtin → String → State → Option (Builtin × String)
unfolding find_key
locate_from [] key_prefix s = none
locate_from (b ∷ bs) key_prefix s =
    let rest = locate_from bs key_prefix s in
    elim (find_key key_prefix (pool b s).keys) [ none ↦ rest | some k ↦ some (b, k) ]

unfoldable pub locate : String → State → Option (Builtin × String)
unfolding locate_from
locate key_prefix s = locate_from builtins key_prefix s

-- The loop over the custom providers' keys.
pub locate_custom : String → Dict (List String) → Option (String × String)
locate_custom key_prefix [] = none
locate_custom key_prefix ((p, keys) ∷ d) =
    let rest = locate_custom key_prefix d in
    elim (find (λ k. has_prefix k key_prefix) keys) [ none ↦ rest | some k ↦ some (p, k) ]

-- `xs == ys` of lists
abbrev pub list_eq : List String → List String → Bool
list_eq [] [] = true
list_eq [] (y ∷ ys) = false
list_eq (x ∷ xs) [] = false
list_eq (x ∷ xs) (y ∷ ys) = str_eq x y && list_eq xs ys

-- The ladder `target_list == BM_API_KEYS`, …: the lists are compared by their contents.
unfoldable pub branch_from : List Builtin → List String → State → Option Builtin
branch_from [] keys s = none
branch_from (b ∷ bs) keys s =
    let rest = branch_from bs keys s in if list_eq keys (pool b s).keys then some b else rest

unfoldable pub branch_of : List String → State → Option Builtin
unfolding branch_from
branch_of keys s = branch_from builtins keys s

-- `KEYS.index(current) if current in KEYS else 0`, and 0 where reading the current key raises
pub reindexed : Env → Builtin → State → ℕ
reindexed env b s = elim (get_current_key env b s) [
  | ok (some k) ↦ or_else (index_where (λ j. str_eq j k) (pool b s).keys) 0
  | _ ↦ 0
]

abbrev pub drop_key : Builtin → String → State → State
drop_key b key s =
    set_pool b (record (pool b s) { keys = remove_where (λ k. str_eq k key) (pool b s).keys }) s

abbrev pub set_index : Builtin → ℕ → State → State
set_index b i s = set_pool b (record (pool b s) { index = i }) s

-- `remove`, and the new index.
pub shrink_pool : Env → Builtin → String → State → State
unfolding reindexed
shrink_pool env b key s = set_index b (reindexed env b (drop_key b key s)) (drop_key b key s)

-- `if target_key == active_key: rotate()`
pub leave_key : Env → Builtin → String → String → State → State
leave_key env b key current s = if str_eq key current then (rotate_key env b s).1 else s

-- One branch of the ladder. Only the reading of the current key before the removal can raise, since a
-- rotation of two keys or more does not.
pub remove_builtin_key : Env → Builtin → String → State → Result State
unfolding shrink_pool leave_key
remove_builtin_key env b key s = elim (get_current_key env b s) [
  | raised e ↦ raised e
  | ok none ↦ ok (shrink_pool env b key s)
  | ok (some current) ↦ ok (shrink_pool env b key (leave_key env b key current s))
]

abbrev pub forget_key : String → State → State
forget_key key s = send (delete_key key) (record s { key_statuses = erase key s.key_statuses })

-- What is done with a key that was found in the pool `b`.
pub remove_found : Env → Builtin → String → State → Result Reply × State
unfolding remove_builtin_key branch_of
remove_found env b key s =
    if leb (length (pool b s).keys) 1
    then (ok (false, "Cannot delete the last remaining key of this type"), s)
    else elim (branch_of (pool b s).keys s) [
      | none ↦ (ok (true, "Key removed successfully"), forget_key key s)
      | some c ↦ elim (remove_builtin_key env c key s) [
        | raised e ↦ (raised e, s)
        | ok t ↦ (ok (true, "Key removed successfully"), forget_key key t)
      ]
    ]

unfoldable pub remove_api_key : Env → String → State → Result Reply × State
unfolding locate locate_custom remove_found
remove_api_key env key_prefix s = elim (locate key_prefix s) [
  | some (b, key) ↦ remove_found env b key s
  | none ↦ elim (locate_custom key_prefix s.custom_provider_keys) [
    | none ↦ (ok (false, "Key not found"), s)
    | some (p, key) ↦ let (reply, t) = remove_custom_key p key s in (ok reply, t)
  ]
]

-- The two lists of `bulk_remove_api_keys`: each prefix with its message.
pub record Bulk : Type 0 where
  pub removed : List (String × String)
  pub failed : List (String × String)

abbrev file_reply : String → Reply → Bulk → Bulk
file_reply p (true, message) b = record b { removed = snoc b.removed (p, message) }
file_reply p (false, message) b = record b { failed = snoc b.failed (p, message) }

pub bulk_remove_from : Env → List String → Bulk → State → Result Bulk × State
unfolding remove_api_key
bulk_remove_from env [] acc s = (ok acc, s)
bulk_remove_from env (p ∷ ps) acc s =
    let (r, t) = remove_api_key env p s in
    elim r [
      | raised e ↦ (raised e, t)
      | ok reply ↦ bulk_remove_from env ps (file_reply p reply acc) t
    ]

unfoldable pub bulk_remove_api_keys : Env → List String → State → Result Bulk × State
unfolding bulk_remove_from
bulk_remove_api_keys env ps s = bulk_remove_from env ps (record { removed = []; failed = [] }) s
