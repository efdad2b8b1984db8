-- ===== src/Keys/Tests.antt =====
-- The states that the tests and the examples of app/config.py run on.
mod Rotation
mod Qwen
mod Admin
mod Providers
use custorouter.Common.{Option, none, some, List, [], ◌∷◌, String, false}
use custorouter.Keys.State.{State, Env, Pool, ProviderInfo, LogItem, active, standby, limited}

abbrev pub env : Env
env = record {
  bluesminds_api_key = some "bm-env";
  nara_api_keys = [];
  dahl_api_keys = [];
  qwen_cloud_api_keys = "qc-env" ∷ [];
  marketku_api_keys = [];
  limit_cooldown_minutes = 5;
  custom_cooldown_seconds = 10;
}

abbrev pub acme : ProviderInfo
acme = record {
  name = "Acme";
  base_url = "https://acme.test/v1";
  api_format = "anthropic";
  auth_header = "x-api-key";
  anthropic_version = "2023-06-01";
  models = [];
}

abbrev pub no_keys : Pool
no_keys = record { keys = []; index = 0 }

-- Three byNara keys with the second one current, two Qwen Cloud keys, and one custom provider.
abbrev pub busy : State
busy = record {
  bm_pool = no_keys;
  nry_pool = record { keys = "nara-one" ∷ "nara-two" ∷ "nara-three" ∷ []; index = 1 };
  dahl_pool = no_keys;
  qc_pool = record { keys = "qc-one" ∷ "qc-two" ∷ []; index = 0 };
  marketku_pool = no_keys;
  key_statuses = ("nara-one", standby) ∷ ("nara-two", active) ∷ ("qc-two", limited) ∷ [];
  key_limited_at = ("qc-two", 1) ∷ [];
  total_requests = 0;
  total_tokens = 0;
  failover_count = 0;
  recent_requests = [];
  qc_model_key_index = [];
  qc_model_failures = [];
  custom_providers = ("acme", acme) ∷ [];
  custom_provider_keys = ("acme", "acme-one" ∷ "acme-two" ∷ []) ∷ [];
  custom_key_index = ("acme", 1) ∷ [];
  custom_rate_limited_at = [];
  disabled_providers = [];
  writes = [];
}

-- The same with five byNara keys, the first of them current.
abbrev pub five_keys : State
five_keys = record busy {
  nry_pool = record {
    keys = "nara-one" ∷ "nara-two" ∷ "nara-three" ∷ "nara-four" ∷ "nara-five" ∷ [];
    index = 0;
  };
}
