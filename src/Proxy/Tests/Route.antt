-- ===== src/Proxy/Tests/Route.antt =====
-- Tests and examples of the policy of a router key and of its routes (app/routers/proxy.py).
use Prim.Native.Nat.{ℕ}
use custorouter.Common.{
  ℕ, ◌+◌, ◌≡◌, refl, false, Option, none, some, String, [], ◌∷◌, is_empty, or_else, is_some, Dict,
  lookup, insert, erase, strip, strip_all, map, str_eq, if◌then◌else◌,
}
use custorouter.Proxy.Policy.{
  object, listed, RouterKey, Caller, key_model_routes, reserved_message, model_allowed_for_key,
}
use custorouter.Proxy.Policy.Laws.{
  marked, unmarked, routes_with, model_allowed_for_key_candidate, model_allowed_for_key-reserved,
}
use custorouter.Proxy.Route.{Redis}

-- A key with one route over two models, and the alias of a third.
abbrev key : RouterKey
key = record {
  allowed_models = "nry/m, nry/a";
  model_routes = object (("fast", listed (some "nry/a" ∷ none ∷ some " nry/b " ∷ [])) ∷ []);
  model_aliases = ("nry/m", "house") ∷ [];
}

abbrev client : Caller
client = record { router_key = some key; route_active = false; route_candidate = "" }

model_allowed_for_key_candidate_example :
    (model_allowed_for_key client "fast" ≡ none)
    × (model_allowed_for_key (unmarked client) "nry/b" ≡ (
        if is_some (lookup "nry/b" (key_model_routes (some key)))
        then none
        else some (reserved_message "nry/b")))
    × (model_allowed_for_key (marked "nry/b" client) "nry/m" ≡ (
        if str_eq "nry/m" "nry/b" then none else model_allowed_for_key (unmarked client) "nry/m"))
    × (model_allowed_for_key (marked "nry/m" client) "nry/m" ≡ (
        if is_empty (routes_with "nry/m" (key_model_routes (some key)))
        then model_allowed_for_key (unmarked client) "nry/m"
        else none))
unfolding key_model_routes lookup insert strip strip_all
model_allowed_for_key_candidate_example =
    model_allowed_for_key_candidate client key "fast" "nry/b" "nry/m" {cs = "nry/a" ∷ "nry/b" ∷ []}
      refl refl refl

reserved_candidate_is_refused :
    model_allowed_for_key client "nry/a" ≡ some (reserved_message "nry/a")
unfolding key_model_routes lookup insert strip strip_all
reserved_candidate_is_refused =
    model_allowed_for_key-reserved client key "nry/a" refl refl refl refl

-- Redis as a dict from a key to its count, with holds that never end.
abbrev looked_up : Dict ℕ → String → Option String
looked_up d k = elim (lookup k d) [ none ↦ none | some n ↦ some "1" ]

abbrev memory : Redis (Dict ℕ)
memory = record {
  mget = λ ks d. some (map (looked_up d) ks);
  delete = λ k d. some (erase k d);
  incr = λ k d. some (or_else (lookup k d) 0 + 1, insert k (or_else (lookup k d) 0 + 1) d);
  expire = λ k seconds d. some d;
}

-- Only the second model works.
abbrev upstream : String → Dict ℕ → Option ℕ × Dict ℕ
upstream model d = (if str_eq model "nry/b" then some 200 else some 503, d)
