-- ===== src/Keys/State.antt =====
-- The module globals of app/config.py that the key pools and the providers stand in.
--
-- The five built-in pools are the pairs of globals BM_API_KEYS/current_bm_key_index and so on; a
-- pair is a `Pool`. The statements that the code sends to Postgres are recorded in the order in
-- which it sends or schedules them. Instants are counted in microseconds.
use custorouter.Common.{
  ◌⊎◌, inl, inr, arith, ℕ, ◌≡◌, refl, ◌≢◌, Bool, Option, String, List, snoc, Dict,
}

-- BUILTIN_PROVIDER_PREFIXES
pub data Builtin : Type 0 where
  bm nry dahl qc marketku : Builtin

pub Builtin-discrete : Discrete Builtin
Builtin-discrete = hlevel

abbrev pub prefix_of : Builtin → String
prefix_of bm = "bm"
prefix_of nry = "nry"
prefix_of dahl = "dahl"
prefix_of qc = "qc"
prefix_of marketku = "marketku"

-- The four words that the code writes into `key_statuses`, and whatever else a row may hold.
pub data Status : Type 0 where
  active standby limited invalid : Status
  other : String → Status

pub record Pool : Type 0 where
  pub keys : List String
  pub index : ℕ

pub record ProviderInfo : Type 0 where
  pub name : String
  pub base_url : String
  pub api_format : String
  pub auth_header : String
  pub anthropic_version : String
  pub models : List String

-- One entry of `recent_requests`; the clock stands for its id and its timestamp.
pub record LogItem : Type 0 where
  pub clock : ℕ
  pub model : String
  pub status_code : ℕ
  pub key_used : String
  pub rotated : Bool
  pub latency_ms : ℕ
  pub provider : String
  pub input_tokens : ℕ
  pub output_tokens : ℕ
  pub cached_tokens : ℕ

-- The statements sent to Postgres, by their effect.
pub data Write : Type 0 where
  set_status : Status → String → Write
  set_failovers : ℕ → Write
  set_provider : String → String → Write
  insert_key : String → String → Status → String → Write
  seed_key : String → String → Status → String → Write
  delete_key : String → Write
  delete_provider_keys : String → Write
  insert_exhaustion : String → String → Write
  delete_exhaustions : String → Write
  insert_provider : String → ProviderInfo → Write
  delete_provider : String → Write
  set_models : String → String → Write
  disable_provider enable_provider : String → Write
  persist_log : LogItem → Write

pub record State : Type 0 where
  pub bm_pool : Pool
  pub nry_pool : Pool
  pub dahl_pool : Pool
  pub qc_pool : Pool
  pub marketku_pool : Pool
  pub key_statuses : Dict Status
  pub key_limited_at : Dict ℕ
  pub total_requests : ℕ
  pub total_tokens : ℕ
  pub failover_count : ℕ
  pub recent_requests : List LogItem
  pub qc_model_key_index : Dict ℕ
  pub qc_model_failures : Dict (Dict Bool)
  pub custom_providers : Dict ProviderInfo
  pub custom_provider_keys : Dict (List String)
  pub custom_key_index : Dict ℕ
  pub custom_rate_limited_at : Dict ℕ
  pub disabled_providers : List String
  pub writes : List Write

-- The settings that app/config.py reads from the environment.
pub record Env : Type 0 where
  pub bluesminds_api_key : Option String
  pub nara_api_keys : List String
  pub dahl_api_keys : List String
  pub qwen_cloud_api_keys : List String
  pub marketku_api_keys : List String
  pub limit_cooldown_minutes : ℕ
  pub custom_cooldown_seconds : ℕ

-- What a Python function that may raise returns.
pub data Error : Type 0 where
  index_error : Error

pub data Result {ℓ} (A : Type ℓ) : Type ℓ where
  ok : A → Result A
  raised : Error → Result A

-- The answer of an administrative operation: its flag and its message.
abbrev pub Reply : Type 0
Reply = Bool × String

abbrev pub pool : Builtin → State → Pool
pool bm s = s.bm_pool
pool nry s = s.nry_pool
pool dahl s = s.dahl_pool
pool qc s = s.qc_pool
pool marketku s = s.marketku_pool

abbrev pub set_pool : Builtin → Pool → State → State
set_pool bm p s = record s { bm_pool = p }
set_pool nry p s = record s { nry_pool = p }
set_pool dahl p s = record s { dahl_pool = p }
set_pool qc p s = record s { qc_pool = p }
set_pool marketku p s = record s { marketku_pool = p }

-- `_bg(db_execute(...))` and `await db_execute(...)`
abbrev pub send : Write → State → State
send w s = record s { writes = snoc s.writes w }

pub pool-set_pool_self : (b : Builtin) (p : Pool) (s : State) → pool b (set_pool b p s) ≡ p
pool-set_pool_self bm p s = refl
pool-set_pool_self nry p s = refl
pool-set_pool_self dahl p s = refl
pool-set_pool_self qc p s = refl
pool-set_pool_self marketku p s = refl

pub pool-set_pool_ne :
    (b c : Builtin) (p : Pool) (s : State) → b ≢ c → pool c (set_pool b p s) ≡ pool c s
pool-set_pool_ne bm c p s h = ground arith
pool-set_pool_ne nry c p s h = ground arith
pool-set_pool_ne dahl c p s h = ground arith
pool-set_pool_ne qc c p s h = ground arith
pool-set_pool_ne marketku c p s h = ground arith

-- The pools are one, or what holds of two pools holds.
pub unless_same {ℓ} : {P : Type ℓ} (b c : Builtin) → (b ≢ c → P) → (b ≡ c) ⊎ P
unless_same b c f = elim (Builtin-discrete b c) [
  | yes same ↦ inl same
  | no differs ↦ inr (f differs)
]
