-- ===== src/Keys/Providers/Removal.antt =====
-- What `remove_provider` of app/config.py leaves behind.
use custorouter.Common.{
  ◌⊎◌, ℕ, ◌<◌, ◌≡◌, refl, true, false, none, some, String, List, [], ◌∷◌, arith, if◌then◌else◌,
  elem, erase, lookup, lookup-erase, eq_refl, nonempty, strip, snoc, ◌∙◌, ap,
}
use custorouter.Keys.State.{
  unless_same, Builtin, bm, nry, dahl, qc, marketku, State, Env, pool, pool-set_pool_self,
  pool-set_pool_ne, raised, index_error, prefix_of,
}
use custorouter.Keys.Rotation.{get_current_key}
use custorouter.Keys.Add.{builtin_of, is_listed, add_api_key}
use custorouter.Keys.Add.Laws.{add_api_key_builtin}
use custorouter.Keys.Providers.{
  forget_statuses, announce_disabled, disable_builtin, remove_provider, add_to_set,
}

pool-forget_statuses :
    (b : Builtin) (ks : List String) (s : State) → pool b (forget_statuses ks s) ≡ pool b s
unfolding forget_statuses
pool-forget_statuses b [] s = refl
pool-forget_statuses bm (k ∷ ks) s = pool-forget_statuses bm ks _
pool-forget_statuses nry (k ∷ ks) s = pool-forget_statuses nry ks _
pool-forget_statuses dahl (k ∷ ks) s = pool-forget_statuses dahl ks _
pool-forget_statuses qc (k ∷ ks) s = pool-forget_statuses qc ks _
pool-forget_statuses marketku (k ∷ ks) s = pool-forget_statuses marketku ks _

lookup-forget_statuses :
    (k : String) (ks : List String) (s : State)
    → lookup k (forget_statuses ks s).key_statuses
      ≡ (if elem k ks then none else lookup k s.key_statuses)
unfolding forget_statuses
lookup-forget_statuses k [] s = refl
lookup-forget_statuses k (j ∷ ks) s = ground (
  arith,
  lookup-forget_statuses k ks (record s { key_statuses = erase j s.key_statuses }),
  lookup-erase j k s.key_statuses,
)

key_statuses-disable_builtin :
    (b : Builtin) (k : String) (s : State)
    → lookup k (disable_builtin b s).key_statuses
      ≡ (if elem k (pool b s).keys then none else lookup k s.key_statuses)
unfolding disable_builtin
key_statuses-disable_builtin bm k s = lookup-forget_statuses k s.bm_pool.keys s
key_statuses-disable_builtin nry k s = lookup-forget_statuses k s.nry_pool.keys s
key_statuses-disable_builtin dahl k s = lookup-forget_statuses k s.dahl_pool.keys s
key_statuses-disable_builtin qc k s = lookup-forget_statuses k s.qc_pool.keys s
key_statuses-disable_builtin marketku k s = lookup-forget_statuses k s.marketku_pool.keys s

get_current_key_out :
    (env : Env) (b : Builtin) (t : State) {k : String} {i : ℕ}
    → (pool b t).keys ≡ k ∷ []
    → (pool b t).index ≡ i
    → 0 < i
    → get_current_key env b t ≡ raised index_error
unfolding get_current_key
get_current_key_out env b t e placed late = ground arith

pool-announce_disabled :
    (c : Builtin) (prefix : String) (s : State) → pool c (announce_disabled prefix s) ≡ pool c s
pool-announce_disabled bm prefix s = refl
pool-announce_disabled nry prefix s = refl
pool-announce_disabled dahl prefix s = refl
pool-announce_disabled qc prefix s = refl
pool-announce_disabled marketku prefix s = refl

pool-disable_builtin :
    (b : Builtin) (s : State)
    → (pool b (disable_builtin b s) ≡ record { keys = []; index = (pool b s).index })
      × ((c : Builtin) → (b ≡ c) ⊎ (pool c (disable_builtin b s) ≡ pool c s))
unfolding disable_builtin
pool-disable_builtin b s =
    let f = forget_statuses (pool b s).keys s in
    (
      pool-announce_disabled b (prefix_of b) _ ∙ pool-set_pool_self b _ f,
      λ c. unless_same b c (λ ne.
          pool-announce_disabled c (prefix_of b) _
          ∙ pool-set_pool_ne b c _ f ne
          ∙ pool-forget_statuses c (pool b s).keys s),
    )

elem-add_to_set : (p : String) (xs : List String) → elem p (add_to_set p xs) ≡ true
elem-add_to_set p xs = ground (arith, eq_refl p)

disabled-disable_builtin :
    (b : Builtin) (s : State) → elem (prefix_of b) (disable_builtin b s).disabled_providers ≡ true
unfolding disable_builtin
disabled-disable_builtin b s = elem-add_to_set (prefix_of b) _

remove_provider_eq :
    (prefix : String) (b : Builtin) (s : State)
    → builtin_of prefix ≡ some b
    → remove_provider prefix s
      ≡ ((true, "Built-in provider disabled and its keys removed"), disable_builtin b s)
unfolding remove_provider
remove_provider_eq prefix b s e = ground arith

-- Removing a built-in provider empties its pool, disables it and drops the status of exactly its
-- keys; every other pool stays as it was.
pub remove_provider_builtin :
    (prefix : String) (b : Builtin) (s : State)
    → builtin_of prefix ≡ some b
    → ((remove_provider prefix s).0.0 ≡ true)
      × ((pool b (remove_provider prefix s).1).keys ≡ [])
      × ((c : Builtin) → (b ≡ c) ⊎ (pool c (remove_provider prefix s).1 ≡ pool c s))
      × (elem (prefix_of b) (remove_provider prefix s).1.disabled_providers ≡ true)
      × ((k : String)
          → lookup k (remove_provider prefix s).1.key_statuses
            ≡ (if elem k (pool b s).keys then none else lookup k s.key_statuses))
remove_provider_builtin prefix b s e =
    let (here, others) = pool-disable_builtin b s in
    rw (remove_provider_eq prefix b s e) (
      refl,
      ap (λ p. p.keys) here,
      others,
      disabled-disable_builtin b s,
      λ k. key_statuses-disable_builtin b k s,
    )

-- The index of the pool survives: after the removal of a built-in provider whose index was not 0, a
-- first key that is added to it is accepted, and reading the current key of the pool raises.
pub remove_provider_stale :
    (env : Env) (prefix text : String) (b : Builtin) (s : State)
    → builtin_of prefix ≡ some b
    → 0 < (pool b s).index
    → nonempty (strip text) ≡ true
    → is_listed (strip text) (remove_provider prefix s).1 ≡ false
    → ((add_api_key text prefix (remove_provider prefix s).1).0 ≡ (true, "Key added successfully"))
      × (get_current_key env b (add_api_key text prefix (remove_provider prefix s).1).1
          ≡ raised index_error)
remove_provider_stale env prefix text b s e late full fresh =
    let t = (remove_provider prefix s).1 in
    let (reply, listed, placed, _, _, _) = add_api_key_builtin text prefix b t full fresh e in
    let (here, _) = pool-disable_builtin b s in
    let gone : pool b t ≡ record { keys = []; index = (pool b s).index } =
      ap (pool b) (ap (λ r. r.1) (remove_provider_eq prefix b s e)) ∙ here in
    let one : (pool b (add_api_key text prefix t).1).keys ≡ strip text ∷ [] =
      listed ∙ ap (λ p. snoc p.keys (strip text)) gone in
    let stale : (pool b (add_api_key text prefix t).1).index ≡ (pool b s).index =
      placed ∙ ap (λ p. p.index) gone in
    (reply, get_current_key_out env b _ one stale late)
