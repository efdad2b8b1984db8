-- ===== src/Proxy/Policy.antt =====
-- app/routers/proxy.py: which models a router key may call, its model routes and its aliases.
--
-- The JSON columns of a router key stand decoded: what matters of a value is its shape.
pub mod Laws
use Prim.Native.Nat.{Ordering}
use Prim.Native.String
use custorouter.Common.{
  ℕ, Bool, true, false, not, ◌&&◌, ◌||◌, Option, none, some, String, List, [], ◌∷◌, ◌++◌, ltb,
  if◌then◌else◌, is_empty, length, take, elem, or_else, is_some, Dict, lookup, insert, str_eq,
  nonempty, strip, strip_all, split, join, find,
}
use custorouter.Keys.Add.{◌+text+◌}
use custorouter.Keys.Catalog.{parse_models}

-- A decoded list of candidates, with `none` for an element that is no text, and a decoded column.
pub data Candidates : Type 0 where
  other_value : Candidates
  listed : List (Option String) → Candidates

pub data Routes : Type 0 where
  no_object : Routes
  object : List (String × Candidates) → Routes

-- A row of `router_api_keys`, as far as the policy reads it.
pub record RouterKey : Type 0 where
  pub allowed_models : String
  pub model_routes : Routes
  pub model_aliases : Dict String

-- `request.state`: the key, and the marker of the router's own requests for a route.
pub record Caller : Type 0 where
  pub router_key : Option RouterKey
  pub route_active : Bool
  pub route_candidate : String

abbrev texts_of : List (Option String) → List String
texts_of [] = []
texts_of (none ∷ xs) = texts_of xs
texts_of (some x ∷ xs) = x ∷ texts_of xs

-- The loop over the decoded object; at most 24 candidates of a route are kept.
pub routes_from : List (String × Candidates) → Dict (List String) → Dict (List String)
routes_from [] routes = routes
routes_from ((name, other_value) ∷ rest) routes = routes_from rest routes
routes_from ((name, listed xs) ∷ rest) routes =
    let clean = strip_all (texts_of xs) in
    routes_from rest (if is_empty clean then routes else insert name (take 24 clean) routes)

unfoldable pub key_model_routes : Option RouterKey → Dict (List String)
unfolding routes_from
key_model_routes none = []
key_model_routes (some key) = elim key.model_routes [
  | no_object ↦ []
  | object rows ↦ routes_from rows []
]

-- `any(model in candidates for candidates in routes.values())`
abbrev pub is_routed : String → Dict (List String) → Bool
is_routed model [] = false
is_routed model ((name, candidates) ∷ d) = elem model candidates || is_routed model d

-- A text put into an ordered list without repetition.
abbrev pub place : String → List String → List String
place x [] = x ∷ []
place x (y ∷ ys) = elim (String.compare x y) [
  | Ordering.lt ↦ x ∷ y ∷ ys
  | Ordering.eq ↦ y ∷ ys
  | Ordering.gt ↦ y ∷ place x ys
]

-- `sorted` of a set comprehension
abbrev pub sorted : List String → List String
sorted [] = []
sorted (x ∷ xs) = place x (sorted xs)

abbrev pub reserved_message : String → String
reserved_message model =
    "Model '" +text+ model
    +text+ "' is reserved as a fallback for this API key's model route. Call the route name instead."

abbrev pub forbidden_message : String → List String → String
forbidden_message model allowed =
    "This API key is not allowed to use model '"
    +text+ model
    +text+ "'. Allowed: "
    +text+ join ", " (take 10 (sorted allowed))
    +text+ (if ltb 10 (length (sorted allowed)) then "..." else "")

-- The router's own request for the candidate of one of the key's routes.
abbrev pub is_internal : Caller → String → Dict (List String) → Bool
is_internal caller model routes =
    caller.route_active && str_eq model caller.route_candidate && is_routed model routes

-- No answer where the key may use the model.
abbrev pub judge : Caller → RouterKey → String → Dict (List String) → Option String
judge caller key model routes =
    let raw = strip key.allowed_models in
    let allowed = parse_models raw in
    if is_some (lookup model routes)
    then none
    else if is_internal caller model routes
    then none
    else if is_routed model routes
    then some (reserved_message model)
    else if elem model allowed
    then none
    else if not (nonempty raw)
    then none
    else some (forbidden_message model allowed)

pub model_allowed_for_key : Caller → String → Option String
unfolding key_model_routes
model_allowed_for_key caller model = elim caller.router_key [
  | none ↦ none
  | some key ↦ judge caller key model (key_model_routes caller.router_key)
]

-- The loop over the aliases, for the first entry whose alias is the requested name.
pub alias_of : String → Dict String → Option String
alias_of requested [] = none
alias_of requested ((real, alias) ∷ d) =
    if str_eq alias requested then some real else alias_of requested d

abbrev pub key_aliases : Option RouterKey → Dict String
key_aliases none = []
key_aliases (some key) = key.model_aliases

-- The real model, and the name that the responses show.
pub resolve_alias : Dict String → String → String × String
unfolding alias_of
resolve_alias aliases requested = elim (alias_of requested aliases) [
  | some real ↦ (real, requested)
  | none ↦ (requested, or_else (lookup requested aliases) requested)
]
