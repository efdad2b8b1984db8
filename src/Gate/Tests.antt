-- ===== src/Gate/Tests.antt =====
-- Tests and examples of the middleware of app/main.py.
use custorouter.Common.{◌≡◌, get_elem?, rstrip_by, has_prefix, refl, true, false, none, some, []}
use custorouter.Gate.{
  Gate, Request, forbidden, is_inference_request, refused_origin, is_guarded, is_own_origin, enter,
  set_migration_drain, restored_drain, Server, arrived, ended, cancelled, Steps, arrive, finish,
  start, also,
}
use custorouter.Gate.Laws.{set_migration_drain-restored}

abbrev chat : Request
chat = record {
  method = "POST";
  path = "/v1/messages";
  session_token = none;
  sec_fetch_site = none;
  origin = none;
  host = some "router.test";
}

abbrev foreign : Request
foreign = record chat {
  path = "/api/keys";
  session_token = some "s";
  origin = some "https://other.test/";
}

abbrev closed : Gate
closed = record { draining = true; active = 0; stored = some "true" }

abbrev idle : Server
idle = record { gate = record { draining = false; active = 0; stored = none }; running = [] }

chat_is_counted : (enter chat idle.gate).1.active ≡ 1
unfolding enter refused_origin is_inference_request is_guarded has_prefix
chat_is_counted = refl

foreign_is_refused : (enter foreign idle.gate).0 ≡ forbidden "Invalid request origin."
unfolding enter refused_origin is_guarded is_own_origin rstrip_by has_prefix
foreign_is_refused = refl

chat_runs : get_elem? (arrived chat idle).running 0 ≡ some true
unfolding arrived enter refused_origin is_inference_request is_guarded has_prefix
chat_runs = refl

-- A chat begins, its client goes away, and its run is cancelled.
abbrev gone : Steps idle (ended cancelled 0 true (arrived chat idle))
gone = also (also start (arrive chat)) (finish cancelled 0 true chat_runs)

drain_survives_restart :
    restored_drain (set_migration_drain true idle.gate).stored
    ≡ (set_migration_drain true idle.gate).draining
drain_survives_restart = set_migration_drain-restored true idle.gate
