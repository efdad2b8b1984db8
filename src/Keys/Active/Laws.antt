-- ===== src/Keys/Active/Laws.antt =====
-- What `set_active_key` of app/config.py leaves in the pool and among the statuses.
use custorouter.Common.{
  ◌⊎◌, ◌&&◌, if◌then◌else◌, ℕ, ◌≡◌, refl, true, Option, some, String, List, [], ◌∷◌, arith, elem,
  lookup, str_eq, eq_iff, index_where, index_where-found, ◌∙◌, ap,
}
use custorouter.Keys.State.{
  unless_same, standby, Builtin, active, State, Env, ok, pool, pool-set_pool_self, pool-set_pool_ne,
}
use custorouter.Keys.Rotation.{get_current_key}
use custorouter.Keys.Rotation.Laws.{get_current_key_at, key_statuses-set_pool}
use custorouter.Keys.Add.{builtins}
use custorouter.Keys.Add.Distinct.{IsDistinct}
use custorouter.Keys.Remove.{list_eq, branch_from, branch_of, set_index}
use custorouter.Keys.Remove.Laws.{index_of_elem}
use custorouter.Keys.Active.{
  target_of, key_in, is_active, demote, promote, point_at, set_active_key,
}
use custorouter.Keys.Active.Pools.{branch_of-distinct}
use custorouter.Keys.Active.Statuses.{pool-demote, lookup-demote, pool-promote, lookup-promote}
use custorouter.Keys.Active.Search.{key_in_sound}

elem-cons :
    (key : String) (xs : List String)
    → elem key xs ≡ true
    → (y : String) × (ys : List String) × (xs ≡ y ∷ ys)
elem-cons key [] h = cc
elem-cons key (x ∷ xs) h = (x, xs, refl)

set_active_key_eq :
    (key_prefix : String) (provider : Option String) (b : Builtin) (chosen : Option String)
    (key : String) (s : State)
    → target_of key_prefix provider s ≡ some (b, chosen)
    → key_in key_prefix b chosen s ≡ some key
    → elem key (pool b s).keys ≡ true
    → set_active_key key_prefix provider s ≡ (
      (true, "Key set as Active"),
      point_at key (pool b s).keys (promote key (demote (pool b s).keys s)),
    )
unfolding set_active_key
set_active_key_eq key_prefix provider b chosen key s target found listed =
    let (x, xs, shape) = elem-cons key (pool b s).keys listed in ground arith

-- The state after a key of the pool `b` was made the active one.
pub record IsActivated (env : Env) (b : Builtin) (key : String) (s t : State) : Type 0 where
  pub current : get_current_key env b t ≡ ok (some key)
  pub keys_kept : (pool b t).keys ≡ (pool b s).keys
  pub pools_kept : (c : Builtin) → (b ≡ c) ⊎ (pool c t ≡ pool c s)
  pub statuses :
      (k : String)
      → lookup k t.key_statuses ≡ (
          if str_eq key k
          then some active
          else if elem k (pool b s).keys && is_active (lookup k s.key_statuses)
          then some standby
          else lookup k s.key_statuses)

point_at_eq :
    (b : Builtin) (key : String) (keys : List String) (s : State) {j : ℕ}
    → branch_of keys s ≡ some b
    → index_where (λ k. str_eq k key) keys ≡ some j
    → point_at key keys s ≡ set_index b j s
unfolding point_at
point_at_eq b key keys s e f = ground arith

branch_from-cong :
    (bs : List Builtin) (keys : List String) (s t : State)
    → ((c : Builtin) → pool c t ≡ pool c s)
    → branch_from bs keys t ≡ branch_from bs keys s
unfolding branch_from
branch_from-cong [] keys s t same = refl
branch_from-cong (c ∷ bs) keys s t same =
    ground (arith, ap (λ p. list_eq keys p.keys) (same c), branch_from-cong bs keys s t same)

branch_of-cong :
    (keys : List String) (s t : State)
    → ((c : Builtin) → pool c t ≡ pool c s)
    → branch_of keys t ≡ branch_of keys s
unfolding branch_of
branch_of-cong keys s t same = branch_from-cong builtins keys s t same

activated :
    (env : Env) (b : Builtin) (key : String) (s : State)
    → IsDistinct s
    → elem key (pool b s).keys ≡ true
    → IsActivated env b key s
        (point_at key (pool b s).keys (promote key (demote (pool b s).keys s)))
activated env b key s d listed =
    let keys = (pool b s).keys in
    let u = promote key (demote keys s) in
    let same : (c : Builtin) → pool c u ≡ pool c s =
      λ c. pool-promote c key (demote keys s) ∙ pool-demote c keys s in
    let (j, first) = index_of_elem key keys listed in
    let (x, xs, shape) = elem-cons key keys listed in
    let placed : point_at key keys u ≡ set_index b j u =
      point_at_eq b key keys u (branch_of-cong keys s u same ∙ branch_of-distinct b x xs s d shape)
        first in
    let self : pool b (set_index b j u) ≡ record (pool b u) { index = j } =
      pool-set_pool_self b _ u in
    let statuses = (key_statuses-set_pool b (record (pool b u) { index = j }) u).0 in
    let (y, there, equal) = index_where-found (λ k. str_eq k key) keys first in
    let named : y ≡ key = (eq_iff y key).0 equal in
    rw placed (record {
      current =
          get_current_key_at env b (set_index b j u) (rw (self, same b) (there ∙ ap some named));
      keys_kept = rw (self, same b);
      pools_kept = λ c. unless_same b c (λ ne. pool-set_pool_ne b c _ u ne ∙ same c);
      statuses =
          λ k. rw (statuses, lookup-promote key k (demote keys s), lookup-demote k keys s) refl;
    })

-- With no key in two places, a call that finds a key in a pool makes it that pool's current and only
-- active key; the statuses of keys outside the pool and every other pool stay as they were.
pub set_active_key-IsActivated :
    (env : Env) (key_prefix : String) (provider : Option String) (b : Builtin)
    (chosen : Option String) (key : String) (s : State)
    → IsDistinct s
    → target_of key_prefix provider s ≡ some (b, chosen)
    → key_in key_prefix b chosen s ≡ some key
    → ((set_active_key key_prefix provider s).0 ≡ (true, "Key set as Active"))
      × IsActivated env b key s (set_active_key key_prefix provider s).1
set_active_key-IsActivated env key_prefix provider b chosen key s d target found =
    let listed = key_in_sound key_prefix provider b chosen key s target found in
    rw (set_active_key_eq key_prefix provider b chosen key s target found listed)
      (refl, activated env b key s d listed)
