-- ===== src/Keys/Remove/Laws.antt =====
-- What the removal of a key from a built-in pool does to that pool and to the others (app/config.py).
use mathlib.Core.Path.{subst}
use custorouter.Common.{
  ℕ, suc, ◌<◌, ◌≡◌, refl, ◌≢◌, inl, inr, true, none, some, String, List, [], ◌∷◌, arith, length,
  get_elem?, str_eq, eq_iff, eq_refl, elem, index_where, index_where-found, index_where_total,
  lt_of_get_elem?, Option-cases, Bool-cases, ◌∙◌, ap,
}
use custorouter.Keys.State.{Builtin, State, Env, ok, pool, pool-set_pool_self, pool-set_pool_ne}
use custorouter.Keys.Rotation.{get_current_key}
use custorouter.Keys.Rotation.Laws.{get_current_key_at, key_statuses-set_pool}
use custorouter.Keys.Custom.Removal.{without}
use custorouter.Keys.Remove.{reindexed, drop_key, shrink_pool}

pub index_of_elem :
    (key : String) (xs : List String)
    → elem key xs ≡ true
    → (j : ℕ) × (index_where (λ k. str_eq k key) xs ≡ some j)
index_of_elem key [] h = cc
index_of_elem key (x ∷ xs) h = elim (Bool-cases (str_eq x key)) [
  | inl here ↦ (0, ground arith)
  | inr there ↦ let (j, e) = index_of_elem key xs (ground arith) in (suc j, ground arith)
]

length-pos : (xs : List String) → xs ≢ [] → 0 < length xs
length-pos [] h = absurd (h refl)
length-pos (x ∷ xs) h = omega arith

module _ (env : Env) (b : Builtin) where
  pool-drop_key :
      (key : String) (s : State)
      → pool b (drop_key b key s) ≡ record (pool b s) { keys = without key (pool b s).keys }
  pool-drop_key key s = pool-set_pool_self b _ s

  reindexed-some :
      (s : State) {k : String}
      → get_elem? (pool b s).keys (pool b s).index ≡ some k
      → (reindexed env b s < length (pool b s).keys)
        × (get_elem? (pool b s).keys (reindexed env b s) ≡ some k)
  unfolding reindexed
  reindexed-some s {k} e =
      let (j, at) =
        index_where_total (λ x. str_eq x k) (pool b s).keys (pool b s).index e (eq_refl k) in
      let (y, there, same) = index_where-found (λ x. str_eq x k) (pool b s).keys at in
      let named : y ≡ k = (eq_iff y k).0 same in
      let placed : reindexed env b s ≡ j = ground (arith, get_current_key_at env b s e) in
      rw placed (lt_of_get_elem? (pool b s).keys j there, there ∙ ap some named)

  reindexed-none :
      (s : State)
      → (pool b s).keys ≢ []
      → get_elem? (pool b s).keys (pool b s).index ≡ none
      → reindexed env b s ≡ 0
  unfolding reindexed get_current_key
  reindexed-none s h e = ground arith

  -- The pool after the removal, and the key that it then answers.
  pub pool-shrink_pool :
      (key : String) (s : State)
      → ((pool b (shrink_pool env b key s)).keys ≡ without key (pool b s).keys)
        × ((pool b (shrink_pool env b key s)).index ≡ reindexed env b (drop_key b key s))
  unfolding shrink_pool
  pool-shrink_pool key s =
      let p = pool-set_pool_self b _ (drop_key b key s) in
      (ap (λ q. q.keys) p ∙ ap (λ q. q.keys) (pool-drop_key key s), ap (λ q. q.index) p)

  pub pool-shrink_pool_ne :
      (c : Builtin) (key : String) (s : State) → b ≢ c → pool c (shrink_pool env b key s) ≡ pool c s
  unfolding shrink_pool
  pool-shrink_pool_ne c key s h =
      pool-set_pool_ne b c _ (drop_key b key s) h ∙ pool-set_pool_ne b c _ s h

  -- The new index of a pool that has a key left stands at a key.
  pub index-shrink_pool :
      (key : String) (s : State)
      → without key (pool b s).keys ≢ []
      → (pool b (shrink_pool env b key s)).index < length (without key (pool b s).keys)
  index-shrink_pool key s h =
      let d = drop_key b key s in
      let (_, moved) = pool-shrink_pool key s in
      let kept = pool-drop_key key s in
      elim (Option-cases (get_elem? (pool b d).keys (pool b d).index)) [
        | inl out ↦
            let zero_index = reindexed-none d (rw kept h) out in
            rw (moved, zero_index) (length-pos _ h)
        | inr (k, at) ↦
            let (lt, _) = reindexed-some d at in
            rw moved (subst (λ xs. reindexed env b d < length xs) (ap (λ q. q.keys) kept) lt)
      ]

  -- The key that the pool answers after the removal, when the old index is still in range.
  pub current-shrink_pool :
      (key : String) (s : State) {k : String}
      → get_elem? (without key (pool b s).keys) (pool b s).index ≡ some k
      → get_current_key env b (shrink_pool env b key s) ≡ ok (some k)
  current-shrink_pool key s {k} at =
      let d = drop_key b key s in
      let (listed, moved) = pool-shrink_pool key s in
      let kept = pool-drop_key key s in
      let (_, found) = reindexed-some d {k = k} (rw kept at) in
      get_current_key_at env b (shrink_pool env b key s) (
        rw (listed, moved)
          (subst (λ xs. get_elem? xs (reindexed env b d) ≡ some k) (ap (λ q. q.keys) kept) found))

  pub key_statuses-shrink_pool :
      (key : String) (s : State) → (shrink_pool env b key s).key_statuses ≡ s.key_statuses
  unfolding shrink_pool
  key_statuses-shrink_pool key s =
      (key_statuses-set_pool b _ (drop_key b key s)).0 ∙ (key_statuses-set_pool b _ s).0
