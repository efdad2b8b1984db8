-- ===== src/Keys/Boot/Laws.antt =====
-- Which keys are current after `init_state_from_db` of app/config.py.
use mathlib.Core.Path.{subst}
use custorouter.Common.{
  ℕ, ◌≡◌, refl, ◌≢◌, ◌⊎◌, inl, inr, true, Option, some, String, List, [], ◌∷◌, arith, get_elem?,
  lookup, lookup-insert, eq_refl, index_where, index_where-found, Option-cases, ◌∙◌, ap,
}
use custorouter.Keys.State.{
  Builtin, Builtin-discrete, bm, nry, dahl, qc, marketku, State, Env, Status, active, ok, pool,
  pool-set_pool_self, pool-set_pool_ne,
}
use custorouter.Keys.Rotation.{get_current_key}
use custorouter.Keys.Rotation.Laws.{get_current_key_at, key_statuses-set_pool}
use custorouter.Keys.Active.{is_active}
use custorouter.Keys.Remove.{set_index}
use custorouter.Keys.Boot.{
  Rows, mark_active, first_current, choose_current, choose_all, load_rows, seed_env,
  init_state_from_db,
}

-- The pool has no key, or its index stands at a key whose status is active.
abbrev pub HasCurrent : Builtin → State → Type 0
HasCurrent b s =
    ((pool b s).keys ≡ [])
    ⊎ ((k : String) × (get_elem? (pool b s).keys (pool b s).index ≡ some k)
        × (lookup k s.key_statuses ≡ some active))

eq_active : (o : Option Status) → is_active o ≡ true → o ≡ some active
eq_active o h = ground arith

-- One choice: the pool that it is made for, the others, and the statuses.
record IsChosen (b : Builtin) (s t : State) : Type 0 where
  chosen : HasCurrent b t
  pools_kept : (c : Builtin) → b ≢ c → pool c t ≡ pool c s
  still_active :
      (k : String) → lookup k s.key_statuses ≡ some active → lookup k t.key_statuses ≡ some active

pool-mark_active : (c : Builtin) (k : String) (s : State) → pool c (mark_active k s) ≡ pool c s
pool-mark_active bm k s = refl
pool-mark_active nry k s = refl
pool-mark_active dahl k s = refl
pool-mark_active qc k s = refl
pool-mark_active marketku k s = refl

first_current-IsChosen :
    (b : Builtin) (keys : List String) (s : State)
    → (pool b s).keys ≡ keys
    → IsChosen b s (first_current b keys s)
first_current-IsChosen b [] s e = record {
  chosen = inl e;
  pools_kept = λ c ne. refl;
  still_active = λ k h. h;
}
first_current-IsChosen b (x ∷ xs) s e =
    let placed = set_index b 0 s in
    let here = pool-mark_active b x placed ∙ pool-set_pool_self b _ s in
    let statuses = (key_statuses-set_pool b (record (pool b s) { index = 0 }) s).0 in
    record {
      chosen = inr (x, rw (here, e), rw (lookup-insert, eq_refl));
      pools_kept = λ c ne. pool-mark_active c x placed ∙ pool-set_pool_ne b c _ s ne;
      still_active = λ k h.
          ground (arith, lookup-insert x k active placed.key_statuses, ap (lookup k) statuses);
    }

set_index-IsChosen :
    (b : Builtin) (i : ℕ) (s : State)
    → index_where (λ k. is_active (lookup k s.key_statuses)) (pool b s).keys ≡ some i
    → IsChosen b s (set_index b i s)
set_index-IsChosen b i s e =
    let (k, at, good) =
      index_where-found (λ x. is_active (lookup x s.key_statuses)) (pool b s).keys e in
    let here = pool-set_pool_self b (record (pool b s) { index = i }) s in
    let statuses = (key_statuses-set_pool b (record (pool b s) { index = i }) s).0 in
    record {
      chosen = inr (k, rw here at, rw statuses (eq_active _ good));
      pools_kept = λ c ne. pool-set_pool_ne b c _ s ne;
      still_active = λ j h. rw statuses h;
    }

choose_current-IsChosen : (b : Builtin) (s : State) → IsChosen b s (choose_current b s)
unfolding choose_current
choose_current-IsChosen b s =
    elim (Option-cases (index_where (λ k. is_active (lookup k s.key_statuses)) (pool b s).keys)) [
      | inl no_active ↦
          rw (no_active, choose_current) (first_current-IsChosen b (pool b s).keys s refl)
      | inr (i, found) ↦ rw (found, choose_current) (set_index-IsChosen b i s found)
    ]

-- A choice for one pool leaves the current keys of the others.
HasCurrent-later :
    (b c : Builtin) (s : State) → b ≢ c → HasCurrent c s → HasCurrent c (choose_current b s)
HasCurrent-later b c s ne (inl none_left) =
    let step = choose_current-IsChosen b s in inl (rw (step.pools_kept c ne) none_left)
HasCurrent-later b c s ne (inr (k, at, good)) =
    let step = choose_current-IsChosen b s in
    inr (k, rw (step.pools_kept c ne) at, step.still_active k good)

HasCurrent-here :
    (b c : Builtin) (s : State) → HasCurrent c s ⊎ (b ≡ c) → HasCurrent c (choose_current b s)
HasCurrent-here b c s h = elim (Builtin-discrete b c) [
  | yes same ↦
      subst (λ q. HasCurrent q (choose_current b s)) same (choose_current-IsChosen b s).chosen
  | no differs ↦ elim h [
    | inl before ↦ HasCurrent-later b c s differs before
    | inr same ↦ absurd (differs same)
  ]
]

choose_all-HasCurrent : (b : Builtin) (s : State) → HasCurrent b (choose_all s)
unfolding choose_all
choose_all-HasCurrent b s =
    let s1 : State = choose_current bm s in
    let s2 : State = choose_current nry s1 in
    let s3 : State = choose_current dahl s2 in
    let s4 : State = choose_current qc s3 in
    elim b as (λ k. HasCurrent k (choose_all s)) [
      | bm ↦ HasCurrent-here marketku bm s4 (
          inl (
            HasCurrent-here qc bm s3 (
              inl (
                HasCurrent-here dahl bm s2
                  (inl (HasCurrent-here nry bm s1 (inl (HasCurrent-here bm bm s (inr refl)))))))))
      | nry ↦ HasCurrent-here marketku nry s4 (
          inl (
            HasCurrent-here qc nry s3
              (inl (HasCurrent-here dahl nry s2 (inl (HasCurrent-here nry nry s1 (inr refl)))))))
      | dahl ↦
          HasCurrent-here marketku dahl s4
            (inl (HasCurrent-here qc dahl s3 (inl (HasCurrent-here dahl dahl s2 (inr refl)))))
      | qc ↦ HasCurrent-here marketku qc s4 (inl (HasCurrent-here qc qc s3 (inr refl)))
      | marketku ↦ HasCurrent-here marketku marketku s4 (inr refl)
    ]

-- Whatever the rows and the environment hold and whatever the state was before, after the start every
-- built-in pool has no key, or its current key can be read and its status is active.
pub init_state_from_db-current :
    (env : Env) (rows : Rows) (b : Builtin) (s : State)
    → ((pool b (init_state_from_db env rows s)).keys ≡ [])
      ⊎ ((k : String) × (get_current_key env b (init_state_from_db env rows s) ≡ ok (some k))
          × (lookup k (init_state_from_db env rows s).key_statuses ≡ some active))
unfolding init_state_from_db
init_state_from_db-current env rows b s =
    let u = seed_env env rows.exhaustions (load_rows rows s) in
    elim (choose_all-HasCurrent b u) [
      | inl none_left ↦ inl none_left
      | inr (k, at, good) ↦ inr (k, get_current_key_at env b (choose_all u) at, good)
    ]
