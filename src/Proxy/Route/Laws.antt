-- ===== src/Proxy/Route/Laws.antt =====
-- Which candidate answers a model route (app/routers/proxy.py).
use custorouter.Common.{
  ◌≡◌, false, not, Option, none, some, String, List, [], ◌∷◌, is_empty, is_some, keep, map,
}
use custorouter.Proxy.Route.{Redis}

-- `zip(candidates, states)`
abbrev zip : List String → List (Option String) → List (String × Option String)
zip [] states = []
zip (c ∷ cs) [] = []
zip (c ∷ cs) (state ∷ states) = (c, state) ∷ zip cs states

-- The candidates with no entry, in their order.
abbrev healthy : List String → List (Option String) → List String
healthy cs states = map (λ p. p.0) (keep (λ p. not (is_some p.1)) (zip cs states))

-- The candidates that are tried, in their order: all of them if Redis fails or if each has an entry,
-- and else those that have none.
pub data IsTried {ℓ} {W : Type ℓ} (redis : Redis W) (breaker_key : String → String)
    (candidates : List String) (w : W) : List String → Type ℓ where
  unreachable :
      {tried : List String}
      → redis.mget (map breaker_key candidates) w ≡ none
      → tried ≡ candidates
      → IsTried redis breaker_key candidates w tried
  cooling :
      {tried : List String} (states : List (Option String))
      → redis.mget (map breaker_key candidates) w ≡ some states
      → healthy candidates states ≡ []
      → tried ≡ candidates
      → IsTried redis breaker_key candidates w tried
  selected :
      {tried : List String} (states : List (Option String))
      → redis.mget (map breaker_key candidates) w ≡ some states
      → is_empty (healthy candidates states) ≡ false
      → tried ≡ healthy candidates states
      → IsTried redis breaker_key candidates w tried
