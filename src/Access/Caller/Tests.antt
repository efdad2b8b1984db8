-- ===== src/Access/Caller/Tests.antt =====
-- Callers' keys at concrete inputs (app/routers/proxy.py, app/database.py).
use custorouter.Common.{
  ℕ, ◌≡◌, refl, true, false, none, some, [], ◌∷◌, arith, All, get_elem?, has_prefix, drop_text,
}
use custorouter.Access.Keys.{Row, Settings, update_router_api_key, verify_router_api_key}
use custorouter.Access.Caller.{
  Request, Touch, token_of, check_router_auth, check_token, check_key, compare_digest,
}
use custorouter.Access.Caller.Laws.{
  Reason, check_router_auth-Reason, changed, check_router_auth-update,
}
use custorouter.Access.Caller.Quota.{Call, serve_all, is_within, serve_all-is_within}

abbrev settings : Settings
settings = record {
  allowed_models = "";
  model_prompts = "{}";
  model_aliases = "{}";
  model_routes = "{}";
}

abbrev row : Row
row = record {
  id = 1;
  key_value = "rtr_a";
  key_name = "a";
  last_used_at = none;
  is_active = true;
  expires_at = none;
  token_quota = 100;
  tokens_used = 95;
  settings = settings;
}

abbrev request : Request
request = record { router_key = none; authorization = some "Bearer rtr_a"; x_api_key = none }

abbrev touch : Touch
touch = record { created = some true; fails = false }

abbrev call : Call
call = record { now = 5; touch = touch; request = request; tokens = 20; bill_fails = false }

serve_all-is_within_example :
    All (λ (r : Row). is_within 20 r ≡ true) (serve_all "pw" (call ∷ call ∷ []) (row ∷ []))
serve_all-is_within_example =
    serve_all-is_within 20 "pw" (call ∷ call ∷ []) (row ∷ [])
      ((refl, omega arith), ((refl, omega arith), tt)) (tt, tt) (refl, tt)

check_router_auth-Reason_example :
    Reason 5 "pw" (token_of request) (row ∷ []) (check_router_auth "pw" 5 touch request (row ∷ []))
check_router_auth-Reason_example = check_router_auth-Reason "pw" 5 touch request (row ∷ []) refl

abbrev changed_row : Row
changed_row = record {
  id = 1;
  key_value = "rtr_a";
  key_name = "b";
  last_used_at = none;
  is_active = true;
  expires_at = none;
  token_quota = 200;
  tokens_used = 95;
  settings = settings;
}

check_router_auth-update_example :
    (i : ℕ) × (old : Row) × (get_elem? (row ∷ []) i ≡ some old)
    × (changed_row ≡ changed 1 "b" none 200 settings true old)
    × (old.key_value ≡ token_of request)
    × (old.is_active ≡ true)
    × (old.tokens_used ≡ changed_row.tokens_used)
unfolding check_router_auth check_token check_key compare_digest update_router_api_key
    verify_router_api_key token_of has_prefix drop_text
check_router_auth-update_example =
    check_router_auth-update "pw" 5 touch request 1 "b" none 200 settings true (row ∷ [])
      changed_row refl refl
