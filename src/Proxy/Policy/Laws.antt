-- ===== src/Proxy/Policy/Laws.antt =====
-- What a router key may call, and how its aliases resolve (app/routers/proxy.py).
use custorouter.Common.{
  ◌≡◌, refl, ◌⊎◌, inl, inr, Bool, true, false, not, ◌&&◌, ◌||◌, none, some, String, List, [], ◌∷◌,
  arith, if◌then◌else◌, elem, keep, is_empty, eq_refl, ap, ◌∙◌, eq_of_test, Option, or_else,
  is_some, Dict, lookup, str_eq, eq_iff, Bool-cases, Option-cases,
}
use custorouter.Proxy.Policy.{
  RouterKey, Caller, key_model_routes, is_routed, reserved_message, model_allowed_for_key, alias_of,
  resolve_alias,
}

lookup-is_routed :
    (name c : String) {cs : List String} (d : Dict (List String))
    → lookup name d ≡ some cs
    → elem c cs ≡ true
    → is_routed c d ≡ true
unfolding lookup
lookup-is_routed name c [] e h = absurd (ground arith)
lookup-is_routed name c {cs} ((n, ds) ∷ d) e h = elim (Bool-cases (str_eq n name)) [
  | inl here ↦ ground arith
  | inr later ↦ ground (arith, lookup-is_routed name c {cs = cs} d)
]

-- The routes that have the model among their candidates.
abbrev pub routes_with : String → Dict (List String) → Dict (List String)
routes_with model routes = keep (λ r. elem model r.1) routes

is_routed_eq :
    (model : String) (d : Dict (List String))
    → is_routed model d ≡ not (is_empty (routes_with model d))
is_routed_eq model [] = refl
is_routed_eq model ((n, cs) ∷ d) = ground (arith, is_routed_eq model d)

own_test :
    (model c : String) (d : Dict (List String))
    → is_routed c d ≡ true
    → (str_eq model c && is_routed model d) ≡ str_eq model c
own_test model c d routed = elim (Bool-cases (str_eq model c)) [
  | inl same ↦ ground (arith, ap (λ x. is_routed x d) (eq_of_test model c same))
  | inr differs ↦ ground arith
]

any_test :
    (model : String) (d : Dict (List String)) (client : Option String)
    → (if str_eq model model && is_routed model d then none else client)
      ≡ (if is_empty (routes_with model d) then client else none)
any_test model d client = ground (arith, eq_refl model, is_routed_eq model d)

-- A request of the router's own, for this candidate, and a client's request.
abbrev pub marked : String → Caller → Caller
marked candidate caller = record caller { route_active = true; route_candidate = candidate }

abbrev pub unmarked : Caller → Caller
unmarked caller = record caller { route_active = false }

-- The marker opens a candidate of a route, and nothing else.
model_allowed_for_key-marked :
    (caller : Caller) (key : RouterKey) (candidate model : String)
    → caller.router_key ≡ some key
    → model_allowed_for_key (marked candidate caller) model ≡ (
        if str_eq model candidate && is_routed model (key_model_routes (some key))
        then none
        else model_allowed_for_key (unmarked caller) model)
unfolding model_allowed_for_key
model_allowed_for_key-marked caller key candidate model e =
    let routes = key_model_routes (some key) in
    elim (Bool-cases (str_eq model candidate && is_routed model routes)) [
      | inr other ↦ rw (e, other) refl
      | inl own ↦ elim (Option-cases (lookup model routes)) [
        | inl unnamed ↦ rw (e, unnamed, own) refl
        | inr (ds, named) ↦ rw (e, named, own) refl
      ]
    ]

-- A client cannot call a candidate of its key's routes by its own name, even if the allowlist has it,
-- unless a route has that name.
pub model_allowed_for_key-reserved :
    (caller : Caller) (key : RouterKey) (model : String)
    → caller.router_key ≡ some key
    → caller.route_active ≡ false
    → is_routed model (key_model_routes (some key)) ≡ true
    → lookup model (key_model_routes (some key)) ≡ none
    → model_allowed_for_key caller model ≡ some (reserved_message model)
unfolding model_allowed_for_key
model_allowed_for_key-reserved caller key model e outer routed unnamed =
    rw (e, unnamed, outer, routed) refl

-- For a candidate of one of the key's routes: the name of the route may be called; a client that calls
-- the candidate by its own name is refused, unless a route has that name; the marker of the router's
-- own request for the candidate lets the candidate through, whatever the allowlist, and any other
-- model is judged as for a client. A marker that names any model opens it only if a route has it as a
-- candidate, and else the model is judged as for a client.
pub model_allowed_for_key_candidate :
    (caller : Caller) (key : RouterKey) (name c other : String) {cs : List String}
    → caller.router_key ≡ some key
    → lookup name (key_model_routes (some key)) ≡ some cs
    → elem c cs ≡ true
    → (model_allowed_for_key caller name ≡ none)
      × (model_allowed_for_key (unmarked caller) c ≡ (
          if is_some (lookup c (key_model_routes (some key)))
          then none
          else some (reserved_message c)))
      × (model_allowed_for_key (marked c caller) other
          ≡ (if str_eq other c then none else model_allowed_for_key (unmarked caller) other))
      × (model_allowed_for_key (marked other caller) other ≡ (
          if is_empty (routes_with other (key_model_routes (some key)))
          then model_allowed_for_key (unmarked caller) other
          else none))
unfolding model_allowed_for_key
model_allowed_for_key_candidate caller key name c other {cs} e found among =
    let routes = key_model_routes (some key) in
    let routed = lookup-is_routed name c {cs = cs} routes found among in
    (
      rw (e, found) refl,
      elim (Option-cases (lookup c routes)) [
        | inl unnamed ↦
            rw unnamed
              (model_allowed_for_key-reserved (unmarked caller) key c e refl routed unnamed)
        | inr (ds, named) ↦ rw (e, named) refl
      ],
      model_allowed_for_key-marked caller key c other e
          ∙ ap (λ b. if b then none else model_allowed_for_key (unmarked caller) other)
              (own_test other c routes routed),
      model_allowed_for_key-marked caller key other other e
          ∙ any_test other routes (model_allowed_for_key (unmarked caller) other),
    )

-- `real` stands with this alias among the aliases.
abbrev pub has_entry : String → String → Dict String → Bool
has_entry real alias [] = false
has_entry real alias ((r, a) ∷ d) = (str_eq r real && str_eq a alias) || has_entry real alias d

alias_of-entry :
    (requested real : String) (d : Dict String)
    → alias_of requested d ≡ some real
    → has_entry real requested d ≡ true
unfolding alias_of
alias_of-entry requested real [] e = absurd (ground arith)
alias_of-entry requested real ((r, a) ∷ d) e = elim (Bool-cases (str_eq a requested)) [
  | inl here ↦ ground (arith, eq_iff r real)
  | inr later ↦ ground (arith, alias_of-entry requested real d)
]

alias_of-none :
    (requested real : String) (d : Dict String)
    → alias_of requested d ≡ none
    → has_entry real requested d ≡ false
unfolding alias_of
alias_of-none requested real [] e = refl
alias_of-none requested real ((r, a) ∷ d) e = elim (Bool-cases (str_eq a requested)) [
  | inl here ↦ absurd (ground arith)
  | inr later ↦ ground (arith, alias_of-none requested real d)
]

-- A requested name that is an alias resolves to a model that has this alias, and is shown as it is. Any
-- other name resolves to itself, and is shown as its own alias if it has one.
pub resolve_alias_lem :
    (aliases : Dict String) (requested : String)
    → ((has_entry (resolve_alias aliases requested).0 requested aliases ≡ true)
        × ((resolve_alias aliases requested).1 ≡ requested))
      ⊎ (((real : String) → has_entry real requested aliases ≡ false)
          × ((resolve_alias aliases requested).0 ≡ requested)
          × ((resolve_alias aliases requested).1 ≡ or_else (lookup requested aliases) requested))
unfolding resolve_alias
resolve_alias_lem aliases requested = elim (Option-cases (alias_of requested aliases)) [
  | inl missing ↦ inr (
    λ real. alias_of-none requested real aliases missing,
    rw (missing, resolve_alias) refl,
    rw (missing, resolve_alias) refl,
  )
  | inr (real, found) ↦ inl (
    rw (found, resolve_alias) (alias_of-entry requested real aliases found),
    rw (found, resolve_alias) refl,
  )
]
