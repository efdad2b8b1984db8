-- ===== src/Proxy/Tests.antt =====
-- The tests and the examples of app/routers/proxy.py, and the state that they run on.
mod Retry
mod Route
mod Dispatch
use custorouter.Common.{List, [], ◌∷◌}
use custorouter.Keys.State.{State, Pool, ProviderInfo}

abbrev pub acme : ProviderInfo
acme = record {
  name = "Acme";
  base_url = "https://acme.test/v1";
  api_format = "openai";
  auth_header = "bearer";
  anthropic_version = "";
  models = [];
}

abbrev pub two_keys : State
two_keys = record {
  bm_pool = record { keys = []; index = 0 };
  nry_pool = record { keys = []; index = 0 };
  dahl_pool = record { keys = []; index = 0 };
  qc_pool = record { keys = "qc-one" ∷ "qc-two" ∷ []; index = 0 };
  marketku_pool = record { keys = []; index = 0 };
  key_statuses = [];
  key_limited_at = [];
  total_requests = 0;
  total_tokens = 0;
  failover_count = 0;
  recent_requests = [];
  qc_model_key_index = [];
  qc_model_failures = [];
  custom_providers = ("acme", acme) ∷ [];
  custom_provider_keys = ("acme", "one" ∷ "two" ∷ []) ∷ [];
  custom_key_index = ("acme", 1) ∷ [];
  custom_rate_limited_at = [];
  disabled_providers = [];
  writes = [];
}
