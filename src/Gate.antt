-- ===== src/Gate.antt =====
-- app/main.py: the middleware's gates and its counter of running requests, and app/config.py:
-- `set_migration_drain` and `migration_status`.
--
-- What a request leads to after its admission is a parameter of the steps: how its run ends.
pub mod Laws
mod Tests
use custorouter.Common.{
  ◌≡◌, ℕ, ◌+◌, ◌-◌, Bool, true, false, not, ◌&&◌, ◌||◌, Option, none, some, String, List, [], ◌∷◌,
  if◌then◌else◌, get_elem?, elem, or_else, str_eq, nonempty, has_prefix, rstrip_by, remove_at,
}
use custorouter.Keys.Add.{◌+text+◌}
use custorouter.Keys.Providers.{is_slash}

-- MIGRATION_DRAIN_ENABLED, active_inference_requests, and the row of `server_config`.
pub record Gate : Type 0 where
  pub draining : Bool
  pub active : ℕ
  pub stored : Option String

-- What the middleware reads of a request; a cookie or a header that is absent is `none`.
pub record Request : Type 0 where
  pub method : String
  pub path : String
  pub session_token : Option String
  pub sec_fetch_site : Option String
  pub origin : Option String
  pub host : Option String

abbrev pub inference_paths : List String
inference_paths =
    "/v1/messages" ∷ "/v1/v1/messages" ∷ "/v1/messages/count_tokens"
    ∷ "/v1/v1/messages/count_tokens" ∷ "/v1/chat/completions" ∷ "/chat/completions"
    ∷ "/v1/images/generations" ∷ "/images/generations" ∷ "/v1/images/edits" ∷ "/images/edits"
    ∷ "/v1/audio/speech" ∷ "/audio/speech" ∷ "/v1/audio/transcriptions" ∷ "/audio/transcriptions"
    ∷ "/v1/videos" ∷ "/videos" ∷ []

unfoldable pub is_inference_request : Request → Bool
is_inference_request r = str_eq r.method "POST" && elem r.path inference_paths

abbrev pub is_mutation : Request → Bool
is_mutation r = elem r.method ("POST" ∷ "PUT" ∷ "PATCH" ∷ "DELETE" ∷ [])

-- A request that changes something under the administrator's cookie.
unfoldable pub is_guarded : Request → Bool
is_guarded r =
    is_mutation r
    && (has_prefix r.path "/api/" || has_prefix r.path "/observability")
    && nonempty (or_else r.session_token "")

-- An absent header is formatted as the text None.
unfoldable pub is_own_origin : Request → String → Bool
is_own_origin r origin =
    let host = or_else r.host "None" in
    let base = rstrip_by is_slash origin in
    str_eq base ("https://" +text+ host) || str_eq base ("http://" +text+ host)

-- The message of the 403 answer, if the request is refused for its origin.
unfoldable pub refused_origin : Request → Option String
unfolding is_guarded is_own_origin
refused_origin r =
    if not (is_guarded r)
    then none
    else if str_eq (or_else r.sec_fetch_site "") "cross-site"
    then some "Cross-site request blocked."
    else if nonempty (or_else r.origin "") && not (is_own_origin r (or_else r.origin ""))
    then some "Invalid request origin."
    else none

-- How the middleware lets a request in: the two refusals, or a run, with `tracking_inference`.
pub data Admission : Type 0 where
  forbidden : String → Admission
  unavailable : Admission
  admitted : Bool → Admission

-- The branches of the middleware, on the refusal and on whether the request is inference.
abbrev pub admit : Option String → Bool → Gate → Admission × Gate
admit (some message) inference g = (forbidden message, g)
admit none false g = (admitted false, g)
admit none true g =
    if g.draining then (unavailable, g) else (admitted true, record g { active = g.active + 1 })

unfoldable pub enter : Request → Gate → Admission × Gate
enter r g = admit (refused_origin r) (is_inference_request r) g

-- How a run ends: the body of the response, once its iteration has begun, ends, raises or is closed;
-- `call_next` raises an `Exception`; it is cancelled, and `CancelledError` is no `Exception`; or the
-- body is dropped before its first step, so that its `finally` never runs.
pub data End : Type 0 where
  iterated : End
  raised : End
  cancelled : End
  unstarted : End

-- The end of a run. The counter is an integer in the source; the subtraction here stops at 0.
unfoldable pub leave : End → Bool → Gate → Gate
leave iterated tracking g = if tracking then record g { active = g.active - 1 } else g
leave raised tracking g = if tracking then record g { active = g.active - 1 } else g
leave cancelled tracking g = g
leave unstarted tracking g = g

unfoldable pub set_migration_drain : Bool → Gate → Gate
set_migration_drain enabled g = record g {
  draining = enabled;
  stored = some (if enabled then "true" else "false");
}

abbrev pub migration_status : Gate → Bool × ℕ
migration_status g = (g.draining, g.active)

-- The flag as `init_state_from_db` reads it back from its row.
abbrev pub restored_drain : Option String → Bool
restored_drain none = false
restored_drain (some value) = str_eq value "true"

-- The process: its gate, and the `tracking_inference` of every request that runs.
pub record Server : Type 0 where
  pub gate : Gate
  pub running : List Bool

abbrev pub started : Admission → List Bool → List Bool
started (admitted tracking) running = tracking ∷ running
started _ running = running

pub arrived : Request → Server → Server
unfolding enter
arrived r s =
    let (entry, g) = enter r s.gate in record { gate = g; running = started entry s.running }

pub ended : End → ℕ → Bool → Server → Server
unfolding leave
ended end i tracking s = record {
  gate = leave end tracking s.gate;
  running = remove_at i s.running;
}

pub switched : Bool → Server → Server
unfolding set_migration_drain
switched enabled s = record s { gate = set_migration_drain enabled s.gate }

-- The requests interleave in any order.
pub data Step : Server → Server → Type 0 where
  arrive : {s : Server} (r : Request) → Step s (arrived r s)
  finish :
      {s : Server} (end : End) (i : ℕ) (tracking : Bool)
      → get_elem? s.running i ≡ some tracking
      → Step s (ended end i tracking s)
  switch : {s : Server} (enabled : Bool) → Step s (switched enabled s)

pub data Steps (s : Server) : Server → Type 0 where
  start : Steps s s
  also : {t u : Server} → Steps s t → Step t u → Steps s u
