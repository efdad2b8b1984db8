-- ===== src/Keys/Add.antt =====
-- app/config.py: `add_api_key`, and what the other key operations share with it.
pub mod Laws
pub mod Distinct
use mathlib.Core.Option
use custorouter.Common.{
  ℕ, suc, ◌+◌, Bool, true, false, not, ◌&&◌, ◌||◌, Option, none, some, String, List, [], ◌∷◌, ◌++◌,
  leb, ltb, if◌then◌else◌, is_empty, length, find, elem, or_else, is_some, snoc, Dict, lookup,
  insert, erase, keep, str_eq, index_where, remove_where, nonempty, strip, has_prefix, take_text,
  text_length,
}
use custorouter.Keys.State.{
  Builtin, bm, nry, dahl, qc, marketku, prefix_of, Status, active, standby, Pool, ProviderInfo,
  State, Env, Reply, Result, ok, raised, pool, set_pool, send, insert_key, enable_provider,
  set_status, delete_key,
}
use custorouter.Keys.Rotation.{get_current_key, rotate_key}
use custorouter.Keys.Qwen.{reset_qc_model_failures}
use custorouter.Keys.Custom.{keys_of, remove_custom_key}
use Prim.Native.String

infixr 65 ◌+text+◌
abbrev pub ◌+text+◌ : String → String → String
a +text+ b = String.◌++◌ a b

-- `key[:15] + "..." if len(key) > 15 else key`
unfoldable pub masked : String → String
masked key = if ltb 15 (text_length key) then take_text 15 key +text+ "..." else key

abbrev pub builtins : List Builtin
builtins = bm ∷ nry ∷ dahl ∷ qc ∷ marketku ∷ []

-- The ladder of tests on `key_type`, and on `provider` in `set_active_key`.
unfoldable pub builtin_of : String → Option Builtin
builtin_of t = find (λ b. str_eq t (prefix_of b)) builtins

-- BM_API_KEYS + NR_API_KEYS + DAHL_API_KEYS + QC_API_KEYS + MARKETKU_API_KEYS
abbrev pub builtin_keys : State → List String
builtin_keys s =
    s.bm_pool.keys
    ++ (s.nry_pool.keys ++ (s.dahl_pool.keys ++ (s.qc_pool.keys ++ s.marketku_pool.keys)))

-- [k for keys in CUSTOM_PROVIDER_KEYS.values() for k in keys]
abbrev pub custom_keys : Dict (List String) → List String
custom_keys [] = []
custom_keys ((p, keys) ∷ d) = keys ++ custom_keys d

unfoldable pub is_listed : String → State → Bool
is_listed key s =
    elem key s.bm_pool.keys
    || elem key s.nry_pool.keys
    || elem key s.dahl_pool.keys
    || elem key s.qc_pool.keys
    || elem key s.marketku_pool.keys
    || elem key (custom_keys s.custom_provider_keys)

-- The append to the pool that `key_type` names, if it names one.
pub append_key : String → String → State → Option State
unfolding builtin_of
append_key key key_type s = elim (builtin_of key_type) [
  | some b ↦ some (set_pool b (record (pool b s) { keys = snoc (pool b s).keys key }) s)
  | none ↦
      if is_some (lookup key_type s.custom_providers)
      then some (record s {
        custom_provider_keys =
            insert key_type (snoc (keys_of key_type s) key) s.custom_provider_keys;
      })
      else none
]

-- DISABLED_PROVIDERS.discard(provider), with its statement
pub enable : String → State → State
enable provider s =
    if elem provider s.disabled_providers
    then send (enable_provider provider)
        (record s { disabled_providers = keep (λ p. not (str_eq p provider)) s.disabled_providers })
    else s

pub register_key : String → String → State → State
unfolding enable masked
register_key key provider s = enable provider (
    send (insert_key key (masked key) standby provider)
      (record s { key_statuses = insert key standby s.key_statuses }))

unfoldable pub add_api_key : String → String → State → Reply × State
unfolding is_listed append_key register_key
add_api_key text key_type s =
    let key = strip text in
    if not (nonempty key)
    then ((false, "Key cannot be empty"), s)
    else if is_listed key s
    then ((false, "Key already exists"), s)
    else elim (append_key key key_type s) [
      | none ↦ ((false, "Unknown provider: " +text+ key_type), s)
      | some t ↦ ((true, "Key added successfully"), register_key key key_type t)
    ]
