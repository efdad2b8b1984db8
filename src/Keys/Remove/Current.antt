-- ===== src/Keys/Remove/Current.antt =====
-- The removal of a key of a built-in pool by app/config.py's `remove_api_key`: what it keeps, and
-- which key is the current one afterwards.
use native.Mathlib.Nat.{mod-eq_of_lt}
use native.Mathlib.Numerals.{add-one}
use custorouter.Common.{
  ◌⊎◌, ℕ, suc, ◌+◌, ◌%◌, ◌≤◌, ◌<◌, ◌≡◌, refl, ◌≢◌, inl, inr, Bool, true, false, none, some, String,
  List, [], arith, if◌then◌else◌, length, get_elem?, get_elem?-lt, lt_of_get_elem?, str_eq, eq_iff,
  eq_refl, index_where, length-remove_where, get_elem?-remove_where, lookup, lookup-erase,
  Bool-cases, ◌∙◌, sym, ap, ltb,
}
use custorouter.Keys.State.{
  unless_same, Builtin, bm, nry, dahl, qc, marketku, State, Env, ok, pool, active,
}
use custorouter.Keys.Rotation.{get_current_key, rotate_key}
use custorouter.Keys.Rotation.Laws.{get_current_key_at, rotate_key-IsRotated}
use custorouter.Keys.Custom.Removal.{without}
use custorouter.Keys.Remove.{
  shrink_pool, leave_key, remove_builtin_key, locate, forget_key, remove_found, remove_api_key,
}
use custorouter.Keys.Remove.Locate.{branch_of-locate, locate_sound}
use custorouter.Keys.Remove.Laws.{
  index_of_elem, pool-shrink_pool, pool-shrink_pool_ne, index-shrink_pool, current-shrink_pool,
  key_statuses-shrink_pool,
}

pool-forget_key : (b : Builtin) (key : String) (s : State) → pool b (forget_key key s) ≡ pool b s
pool-forget_key bm key s = refl
pool-forget_key nry key s = refl
pool-forget_key dahl key s = refl
pool-forget_key qc key s = refl
pool-forget_key marketku key s = refl

pub get_current_key-cong :
    (env : Env) (b : Builtin) (s t : State)
    → pool b s ≡ pool b t
    → get_current_key env b s ≡ get_current_key env b t
unfolding get_current_key
get_current_key-cong env b s t e = rw e

Option-if :
    (test : Bool) (xs : List String) (i : ℕ) {k : String}
    → get_elem? xs (if test then i else suc i) ≡ some k
    → (if test then get_elem? xs i else get_elem? xs (suc i)) ≡ some k
Option-if true xs i e = e
Option-if false xs i e = e

-- What the removal of `key` from the pool `b` does.
pub record IsRemoved (b : Builtin) (key : String) (s t : State) : Type 0 where
  pub pool_shrunk : (pool b t).keys ≡ without key (pool b s).keys
  pub one_less : suc (length (pool b t).keys) ≡ length (pool b s).keys
  pub index_in_range : (pool b t).index < length (pool b t).keys
  pub pools_kept : (c : Builtin) → (b ≡ c) ⊎ (pool c t ≡ pool c s)
  pub status_dropped : lookup key t.key_statuses ≡ none

module _ (env : Env) (key_prefix : String) (b : Builtin) (key : String) (s : State) where
  removed_state : String → State
  unfolding leave_key shrink_pool
  removed_state current = forget_key key (shrink_pool env b key (leave_key env b key current s))

  remove_api_key_eq :
      {current : String}
      → locate key_prefix s ≡ some (b, key)
      → 2 ≤ length (pool b s).keys
      → get_elem? (pool b s).keys (pool b s).index ≡ some current
      → remove_api_key env key_prefix s
        ≡ (ok (true, "Key removed successfully"), removed_state current)
  unfolding remove_api_key remove_found remove_builtin_key removed_state
  remove_api_key_eq found many at =
      ground (arith, branch_of-locate key_prefix s found, get_current_key_at env b s at)

  -- The pool between the rotation and the removal.
  leave_key_keeps :
      (current : String)
      → 2 ≤ length (pool b s).keys
      → (pool b s).index < length (pool b s).keys
      → ((pool b (leave_key env b key current s)).keys ≡ (pool b s).keys)
        × ((pool b (leave_key env b key current s)).index ≡ (
            if str_eq key current
            then ((pool b s).index + 1) % length (pool b s).keys
            else (pool b s).index))
        × ((c : Builtin) → b ≢ c → pool c (leave_key env b key current s) ≡ pool c s)
  unfolding leave_key
  leave_key_keeps current many lt =
      let (k, _, r) = rotate_key-IsRotated env b s many in
      elim (Bool-cases (str_eq key current)) [
        | inl same ↦ rw same (
          r.keys_kept,
          r.index_moved,
          λ c ne. elim (r.others_kept c) [ inl one ↦ absurd (ne one) | inr kept ↦ kept ],
        )
        | inr differs ↦ rw differs (refl, refl, λ c ne. refl)
      ]

  module _ (found : locate key_prefix s ≡ some (b, key)) (many : 2 ≤ length (pool b s).keys) where
    removed_state-IsRemoved :
        (current : String)
        → (pool b s).index < length (pool b s).keys
        → IsRemoved b key s (removed_state current)
    unfolding removed_state
    removed_state-IsRemoved current lt =
        let u = leave_key env b key current s in
        let v = shrink_pool env b key u in
        let (same, _, others) = leave_key_keeps current many lt in
        let (shrunk, _) = pool-shrink_pool env b key u in
        let (j, at) = index_of_elem key (pool b s).keys (locate_sound key_prefix s found).0 in
        let less = length-remove_where (λ k. str_eq k key) (pool b s).keys at in
        let listed : (pool b v).keys ≡ without key (pool b s).keys =
          shrunk ∙ ap (without key) same in
        let some_left : without key (pool b u).keys ≢ [] =
          λ e. absurd (omega (arith, less, many, ap length (sym (ap (without key) same) ∙ e))) in
        let final = pool-forget_key b key v in
        record {
          pool_shrunk = rw final listed;
          one_less = rw (final, listed) less;
          index_in_range = rw (final, shrunk) (index-shrink_pool env b key u some_left);
          pools_kept = λ c.
              unless_same b c (λ ne.
                pool-forget_key c key v ∙ pool-shrink_pool_ne env b c key u ne ∙ others c ne);
          status_dropped = rw (lookup-erase, eq_refl);
        }

    -- A key that is found in a pool of two keys or more, whose index stands at a key, is removed: its
    -- first entry leaves that pool, the pool's index stands at a key again, the other pools stay as
    -- they were, and the key's status is dropped.
    pub remove_api_key-IsRemoved :
        (pool b s).index < length (pool b s).keys
        → ((remove_api_key env key_prefix s).0 ≡ ok (true, "Key removed successfully"))
          × IsRemoved b key s (remove_api_key env key_prefix s).1
    remove_api_key-IsRemoved lt =
        let (current, at) = get_elem?-lt (pool b s).keys (pool b s).index lt in
        rw (remove_api_key_eq found many at) (refl, removed_state-IsRemoved current lt)

    -- Which key the pool answers after the removal of a key that is not the current one: the current
    -- key if it stands in front of the removed one; the key behind the current one if the removed one
    -- stands in front of it, and there is such a key.
    pub remove_api_key_inactive :
        {current k : String} {j : ℕ}
        → get_elem? (pool b s).keys (pool b s).index ≡ some current
        → key ≢ current
        → index_where (λ x. str_eq x key) (pool b s).keys ≡ some j
        → get_elem?
            (pool b s).keys
            (if ltb (pool b s).index j then (pool b s).index else suc (pool b s).index)
          ≡ some k
        → get_current_key env b (remove_api_key env key_prefix s).1 ≡ ok (some k)
    unfolding leave_key removed_state
    remove_api_key_inactive {current} {k} {j} at ne first next =
        let kept : leave_key env b key current s ≡ s = ground (arith, eq_iff key current) in
        let i = (pool b s).index in
        let place : get_elem? (without key (pool b s).keys) i ≡ some k =
          get_elem?-remove_where (λ x. str_eq x key) (pool b s).keys i first
          ∙ Option-if (ltb i j) (pool b s).keys i next in
        rw (remove_api_key_eq found many at, kept)
          (get_current_key-cong env b _ (shrink_pool env b key s)
              (pool-forget_key b key (shrink_pool env b key s))
            ∙ current-shrink_pool env b key s place)

    -- The removal of the current key, with two keys behind it of which the first is another one, first
    -- rotates to the next one and marks that active, and then goes one key further: the pool answers
    -- the second key behind the removed one, while the status of the first stays active.
    pub remove_api_key_skips :
        {next after : String}
        → get_elem? (pool b s).keys (pool b s).index ≡ some key
        → index_where (λ x. str_eq x key) (pool b s).keys ≡ some (pool b s).index
        → get_elem? (pool b s).keys (suc (pool b s).index) ≡ some next
        → get_elem? (pool b s).keys (suc (suc (pool b s).index)) ≡ some after
        → key ≢ next
        → (get_current_key env b (remove_api_key env key_prefix s).1 ≡ ok (some after))
          × (lookup next (remove_api_key env key_prefix s).1.key_statuses ≡ some active)
    unfolding leave_key removed_state
    remove_api_key_skips {next} {after} at first second third ne =
        let u = (rotate_key env b s).1 in
        let i = (pool b s).index in
        let n = length (pool b s).keys in
        let (k, _, r) = rotate_key-IsRotated env b s many in
        let kept : leave_key env b key key s ≡ u = ground (arith, eq_refl key) in
        let step : (i + 1) % n ≡ suc i =
          mod-eq_of_lt (rw add-one (lt_of_get_elem? (pool b s).keys (suc i) second)) ∙ add-one i in
        let named : k ≡ next = cc (r.listed, ap (get_elem? (pool b s).keys) step) in
        let place : get_elem? (without key (pool b u).keys) (pool b u).index ≡ some after =
          rw (r.keys_kept, r.index_moved, step)
            (get_elem?-remove_where (λ x. str_eq x key) (pool b s).keys (suc i) first
              ∙ ground arith) in
        rw (remove_api_key_eq found many at, kept)
          (
            get_current_key-cong env b _ (shrink_pool env b key u)
                  (pool-forget_key b key (shrink_pool env b key u))
                ∙ current-shrink_pool env b key u place,
            ground (
              arith,
              lookup-erase key next (shrink_pool env b key u).key_statuses,
              eq_iff key next,
              key_statuses-shrink_pool env b key u,
              ap (λ x. lookup x u.key_statuses) named,
              ap (lookup next) (key_statuses-shrink_pool env b key u),
            ),
          )
