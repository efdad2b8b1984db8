-- ===== src/Keys/Boot.antt =====
-- app/config.py: `init_state_from_db`, from the rows of the database and the keys of the environment.
--
-- The rows that the five queries return, and the answer of the drain query, are arguments.
pub mod Laws
use custorouter.Common.{
  ℕ, zero, suc, Bool, true, false, not, ◌&&◌, Option, none, some, String, List, [], ◌∷◌,
  if◌then◌else◌, length, elem, or_else, is_some, snoc, Dict, lookup, insert, str_eq, has_prefix,
  rstrip_by, index_where,
}
use custorouter.Keys.State.{
  Builtin, bm, nry, dahl, qc, marketku, prefix_of, Status, active, standby, State, Env,
  ProviderInfo, Pool, pool, set_pool, send, set_provider, insert_key, seed_key, set_status, Write,
}
use custorouter.Keys.Custom.{keys_of}
use custorouter.Keys.Add.{builtin_of, masked}
use custorouter.Keys.Active.{is_active}
use custorouter.Keys.Remove.{set_index}
use custorouter.Keys.Providers.{is_slash}
use custorouter.Keys.Catalog.{parse_models}

pub record KeyRow : Type 0 where
  pub key_value : String
  pub status : Status
  pub provider : String

-- A row of `custom_providers`; `models` is the comma-separated column, no text where it is null.
pub record ProviderRow : Type 0 where
  pub prefix : String
  pub info : ProviderInfo
  pub models : String

pub record Rows : Type 0 where
  pub providers : List ProviderRow
  pub disabled : List String
  pub total_requests : ℕ
  pub total_tokens : ℕ
  pub total_rotations : ℕ
  pub api_keys : List KeyRow
  pub exhaustions : List (String × String)

abbrev pub set_keys : Builtin → List String → State → State
set_keys b keys s = set_pool b (record (pool b s) { keys = keys }) s

-- The `clear()` calls: every list and dict that is read again, and no index.
pub clear_state : State → State
clear_state s =
    let emptied =
      set_keys bm []
        (set_keys nry [] (set_keys dahl [] (set_keys qc [] (set_keys marketku [] s)))) in
    record emptied {
      key_statuses = [];
      qc_model_key_index = [];
      qc_model_failures = [];
      custom_providers = [];
      custom_provider_keys = [];
    }

pub load_provider : ProviderRow → State → State
load_provider r s =
    let info = record (r.info) {
      base_url = rstrip_by is_slash r.info.base_url;
      models = parse_models r.models;
    } in
    record s {
      custom_providers = insert r.prefix info s.custom_providers;
      custom_provider_keys = insert r.prefix [] s.custom_provider_keys;
    }

pub load_providers : List ProviderRow → State → State
unfolding load_provider
load_providers [] s = s
load_providers (r ∷ rs) s = load_providers rs (load_provider r s)

-- A key that looks like a byNara key is corrected to that provider.
abbrev pub is_misfiled : KeyRow → Bool
is_misfiled r = not (str_eq r.provider "nry") && has_prefix r.key_value "sk-nry-"

abbrev pub corrected : KeyRow → String
corrected r = if is_misfiled r then "nry" else r.provider

-- The append to the list of the provider; a provider that is unknown keeps its key out of every list.
pub file_key : String → String → State → State
unfolding builtin_of
file_key key provider s = elim (builtin_of provider) [
  | some b ↦ set_keys b (snoc (pool b s).keys key) s
  | none ↦
      if is_some (lookup provider s.custom_providers)
      then record s {
        custom_provider_keys =
            insert provider (snoc (keys_of provider s) key) s.custom_provider_keys;
      }
      else s
]

pub load_key : KeyRow → State → State
unfolding file_key
load_key r s =
    let told = if is_misfiled r then send (set_provider "nry" r.key_value) s else s in
    let filed = file_key r.key_value (corrected r) told in
    record filed { key_statuses = insert r.key_value r.status filed.key_statuses }

pub load_keys : List KeyRow → State → State
unfolding load_key
load_keys [] s = s
load_keys (r ∷ rs) s = load_keys rs (load_key r s)

-- One key of the environment, if the pool lacks it.
pub seed_one : Builtin → Status → Write → String → State → State
seed_one b status write key s =
    if elem key (pool b s).keys
    then s
    else send write (record (set_keys b (snoc (pool b s).keys key) s) {
      key_statuses = insert key status s.key_statuses;
    })

-- The Bluesminds key is active at once, and an empty text counts as no key.
pub seed_bluesminds : Env → State → State
unfolding seed_one
seed_bluesminds env s = elim env.bluesminds_api_key [
  | none ↦ s
  | some String.[] ↦ s
  | some key ↦ seed_one bm active (insert_key key (masked key) active "bm") key s
]

pub seed_all : Builtin → List String → State → State
unfolding seed_one
seed_all b [] s = s
seed_all b (key ∷ ks) s =
    seed_all b ks (seed_one b standby (seed_key key (masked key) standby (prefix_of b)) key s)

-- The pairs of a key and a model whose quota is used up, of the keys that are still there.
pub restore_exhaustions : List (String × String) → State → State
restore_exhaustions [] s = s
restore_exhaustions ((key, model) ∷ rows) s = restore_exhaustions rows (
    if elem key s.qc_pool.keys
    then record s {
      qc_model_failures =
          insert key (insert model true (or_else (lookup key s.qc_model_failures) []))
            s.qc_model_failures;
    }
    else s)

abbrev pub mark_active : String → State → State
mark_active k s =
    send (set_status active k) (record s { key_statuses = insert k active s.key_statuses })

abbrev pub first_current : Builtin → List String → State → State
first_current b [] s = s
first_current b (k ∷ ks) s = mark_active k (set_index b 0 s)

-- The first active key of the pool becomes its current one; without one, the first key is made active.
pub choose_current : Builtin → State → State
choose_current b s = elim (index_where (λ k. is_active (lookup k s.key_statuses)) (pool b s).keys) [
  | some i ↦ set_index b i s
  | none ↦ first_current b (pool b s).keys s
]

pub choose_all : State → State
unfolding choose_current
choose_all s =
    choose_current marketku
      (choose_current qc (choose_current dahl (choose_current nry (choose_current bm s))))

pub load_rows : Rows → State → State
unfolding clear_state load_providers load_keys
load_rows rows s =
    let provided = load_providers rows.providers (clear_state s) in
    load_keys rows.api_keys (record provided {
      disabled_providers = rows.disabled;
      total_requests = rows.total_requests;
      total_tokens = rows.total_tokens;
      failover_count = rows.total_rotations;
    })

pub seed_env : Env → List (String × String) → State → State
unfolding seed_bluesminds seed_all restore_exhaustions
seed_env env exhaustions s =
    let early =
      seed_all qc env.qwen_cloud_api_keys (
        seed_all dahl env.dahl_api_keys (seed_all nry env.nara_api_keys (seed_bluesminds env s))) in
    seed_all marketku env.marketku_api_keys (restore_exhaustions exhaustions early)

pub init_state_from_db : Env → Rows → State → State
unfolding load_rows seed_env choose_all
init_state_from_db env rows s = choose_all (seed_env env rows.exhaustions (load_rows rows s))
