-- ===== src/Proxy/Route.antt =====
-- app/routers/proxy.py: `_run_model_route`, and app/redis_store.py: the circuit breaker of the
-- candidates.
--
-- Redis and the endpoint are parameters: they act on a state of the world. Every Redis command may
-- fail, and the endpoint may raise an exception, which leaves `_run_model_route`.
pub mod Attempts
pub mod Laws
pub mod Cooldown
use custorouter.Common.{
  ℕ, suc, ◌+◌, ◌-◌, ◌*◌, ◌^◌, min, Bool, true, false, not, ◌&&◌, ◌||◌, Option, none, some, String,
  List, [], ◌∷◌, leb, ltb, if◌then◌else◌, is_empty, map,
}
use custorouter.Proxy.Retry.{among}

-- The commands of Redis that the breaker sends; `none` is an error of the connection or of Redis.
pub record Redis {ℓ} (W : Type ℓ) : Type ℓ where
  pub mget : List String → W → Option (List (Option String))
  pub delete : String → W → Option W
  pub incr : String → W → Option (ℕ × W)
  pub expire : String → ℕ → W → Option W

-- What a response carries of its route; `attempt` counts from 1.
pub record Response : Type 0 where
  pub status_code : ℕ
  pub route : String
  pub selected : String
  pub attempt : ℕ

pub data Routed : Type 0 where
  answered : Response → Routed
  no_candidate : Routed
  raised : Routed

-- 10, 20, 40, … seconds, up to the longest hold.
pub cooldown : ℕ → ℕ → ℕ
cooldown longest failures = min longest (10 * 2 ^ min (failures - 1) 8)

abbrev pub breaker_statuses : List ℕ
breaker_statuses = 401 ∷ 402 ∷ 403 ∷ 404 ∷ 408 ∷ 425 ∷ 429 ∷ 500 ∷ 502 ∷ 503 ∷ 504 ∷ []

abbrev pub should_fallback_model_response : ℕ → Bool
should_fallback_model_response status = leb 400 status

-- The candidates whose entry in Redis is absent.
abbrev pub unset : List String → List (Option String) → List String
unset [] states = []
unset (c ∷ cs) [] = []
unset (c ∷ cs) (none ∷ states) = c ∷ unset cs states
unset (c ∷ cs) (some v ∷ states) = unset cs states

module _ {ℓ} {W : Type ℓ} (redis : Redis W) (breaker_key : String → String) (longest : ℕ) where
  pub filter_healthy_model_route_candidates : List String → W → List String
  filter_healthy_model_route_candidates candidates w =
      if is_empty candidates then [] else elim (redis.mget (map breaker_key candidates) w) [
        | none ↦ candidates
        | some states ↦ unset candidates states
      ]

  -- A failure of a command ends the function, and keeps what the earlier commands did.
  pub record_model_route_result : String → ℕ → W → W
  unfolding cooldown
  record_model_route_result model status w =
      let key = breaker_key model in
      if leb 200 status && ltb status 400
      then elim (redis.delete key w) [ none ↦ w | some v ↦ v ]
      else if not (among status breaker_statuses)
      then w
      else elim (redis.incr key w) [
        | none ↦ w
        | some (failures, v) ↦ elim (redis.expire key (cooldown longest failures) v) [
          | none ↦ v
          | some u ↦ u
        ]
      ]

  -- One attempt: the status of the endpoint's answer, and its record in the breaker; `none` is an
  -- exception of the endpoint, which is not recorded.
  pub attempt_one : (String → W → Option ℕ × W) → String → W → Option ℕ × W
  unfolding record_model_route_result
  attempt_one endpoint candidate w =
      let (outcome, v) = endpoint candidate w in
      elim outcome [
        | none ↦ (none, v)
        | some status ↦ (some status, record_model_route_result candidate status v)
      ]

  pub attempt_all : (String → W → Option ℕ × W) → String → List String → ℕ → Routed → W → Routed × W
  unfolding attempt_one
  attempt_all endpoint route [] attempt last w = (last, w)
  attempt_all endpoint route (c ∷ cs) attempt last w =
      let (outcome, v) = attempt_one endpoint c w in
      elim outcome [
        | none ↦ (raised, v)
        | some status ↦
            let response =
              answered
                (record { status_code = status; route = route; selected = c; attempt = attempt }) in
            let rest = attempt_all endpoint route cs (suc attempt) response v in
            if should_fallback_model_response status then rest else (response, v)
      ]

  -- `eligible or candidates`
  pub attempts_of : List String → W → List String
  unfolding filter_healthy_model_route_candidates
  attempts_of candidates w =
      let eligible = filter_healthy_model_route_candidates candidates w in
      if is_empty eligible then candidates else eligible

  pub run_model_route : (String → W → Option ℕ × W) → String → List String → W → Routed × W
  unfolding attempts_of attempt_all
  run_model_route endpoint route candidates w =
      attempt_all endpoint route (attempts_of candidates w) 1 no_candidate w
