-- ===== src/Keys/Qwen/Moved.antt =====
-- Where `rotate_qc_key_for_model` of app/config.py moves, told by the tables that it reads.
use custorouter.Common.{
  ℕ, zero, suc, ◌+◌, ◌%◌, ◌≤◌, ◌<◌, ◌≡◌, refl, ◌∙◌, ap, ◌≢◌, ◌⊎◌, inl, inr, Bool, true, false,
  Option, none, some, String, List, [], ◌∷◌, arith, length, get_elem?, insert, lookup, or_else,
  Dict, index_where, index_where-found, str_eq, eq_iff, snoc, Bool-cases, Option-cases, eq_of_test,
}
use custorouter.Keys.State.{State, Status, invalid, set_failovers}
use custorouter.Keys.Qwen.{
  is_qc_model_exhausted, is_invalid, is_eligible, start_after, take_slot, rotate_qc_key_for_model,
}
use custorouter.Keys.Qwen.Scan.{IsFirst}
use custorouter.Keys.Qwen.Select.{rotate_qc_key_for_model_lem}

-- The key is quarantined, or its quota for the model is used up.
abbrev pub IsBarred : State → String → String → Type 0
IsBarred s model key =
    (lookup key s.key_statuses ≡ some invalid)
    ⊎ ((used : Dict Bool) × (lookup key s.qc_model_failures ≡ some used)
        × (lookup model used ≡ some true))

invalid-cases : (o : Option Status) → (o ≡ some invalid) ⊎ (is_invalid o ≡ false)
invalid-cases none = inr refl
invalid-cases (some invalid) = inl refl
invalid-cases (some Status.active) = inr refl
invalid-cases (some Status.standby) = inr refl
invalid-cases (some Status.limited) = inr refl
invalid-cases (some (Status.other text)) = inr refl

lookup_empty : (model : String) → lookup {V = Bool} model [] ≡ none
unfolding lookup
lookup_empty model = refl

IsBarred-not_eligible :
    (s : State) (model key : String) → is_eligible s model key ≡ false → IsBarred s model key
unfolding is_eligible is_qc_model_exhausted
IsBarred-not_eligible s model key h = elim (invalid-cases (lookup key s.key_statuses)) [
  | inl quarantined ↦ inl quarantined
  | inr open_ ↦ elim (Option-cases (lookup key s.qc_model_failures)) [
    | inl missing ↦ absurd (ground (arith, lookup_empty model))
    | inr (used, listed) ↦ elim (Option-cases (lookup model used)) [
      | inl unmarked ↦ absurd (ground arith)
      | inr (true, marked) ↦ inr (used, listed, marked)
      | inr (false, marked) ↦ absurd (ground arith)
    ]
  ]
]

not_eligible-IsBarred :
    (s : State) (model key : String) → IsBarred s model key → is_eligible s model key ≡ false
unfolding is_eligible is_qc_model_exhausted
not_eligible-IsBarred s model key (inl quarantined) = rw quarantined refl
not_eligible-IsBarred s model key (inr (used, listed, marked)) = ground arith

-- The slot that the model remembers.
abbrev pub own_slot : String → State → ℕ
own_slot model s = or_else (lookup model s.qc_model_key_index) 0 % length s.qc_pool.keys

-- The slot of the key that failed, if it is still in the pool, and else the model's own.
abbrev pub IsStart : String → Option String → State → ℕ → Type 0
IsStart model none s start = start ≡ own_slot model s
IsStart model (some key) s start =
    ((get_elem? s.qc_pool.keys start ≡ some key)
      × ((j : ℕ) → j < start → get_elem? s.qc_pool.keys j ≢ some key))
    ⊎ (((j : ℕ) → get_elem? s.qc_pool.keys j ≢ some key) × (start ≡ own_slot model s))

-- A rotation from `s` to `t`.
pub record IsMoved (model : String) (after : Option String) (s t : State) : Type 0 where
  pub start : ℕ
  pub starts : IsStart model after s start
  pub offset : ℕ
  pub from : 1 ≤ offset
  pub below : offset ≤ length s.qc_pool.keys
  pub slot : ℕ
  pub place : slot ≡ (start + offset) % length s.qc_pool.keys
  pub key : String
  pub listed : get_elem? s.qc_pool.keys slot ≡ some key
  pub usable : ¬ (IsBarred s model key)
  pub earlier :
      (p : ℕ) (k : String)
      → 1 ≤ p
      → p < offset
      → get_elem? s.qc_pool.keys ((start + p) % length s.qc_pool.keys) ≡ some k
      → IsBarred s model k
  pub moved : t ≡ record s {
    qc_model_key_index = insert model slot s.qc_model_key_index;
    failover_count = s.failover_count + 1;
    writes = snoc s.writes (set_failovers (s.failover_count + 1));
  }

behind_first :
    (key x : String) (xs : List String)
    → str_eq x key ≡ false
    → (j : ℕ) → get_elem? (x ∷ xs) j ≡ some key
    → ((i : ℕ) → suc i ≡ j → get_elem? xs i ≢ some key)
    → ⊥
behind_first key x xs there zero at rest = ground (arith, eq_iff x key)
behind_first key x xs there (suc i) at rest = rest i refl at

index_where-first :
    (key : String) (xs : List String) {i : ℕ}
    → index_where (λ k. str_eq k key) xs ≡ some i
    → (j : ℕ) → j < i
    → get_elem? xs j ≢ some key
index_where-first key [] e j lt at = cc
index_where-first key (x ∷ xs) e j lt at = elim (Bool-cases (str_eq x key)) [
  | inl here ↦ absurd (ground arith)
  | inr there ↦ elim (Option-cases (index_where (λ k. str_eq k key) xs)) [
    | inl missing ↦ absurd (ground arith)
    | inr (m, found) ↦
        behind_first key x xs there j at
          (λ i below. index_where-first key xs found i (ground arith))
  ]
]

index_where-missing :
    (key : String) (xs : List String)
    → index_where (λ k. str_eq k key) xs ≡ none
    → (j : ℕ) → get_elem? xs j ≢ some key
index_where-missing key [] e j at = cc
index_where-missing key (x ∷ xs) e j at = elim (Bool-cases (str_eq x key)) [
  | inl here ↦ absurd (ground arith)
  | inr there ↦ elim (Option-cases (index_where (λ k. str_eq k key) xs)) [
    | inl missing ↦
        behind_first key x xs there j at (λ i below. index_where-missing key xs missing i)
    | inr (m, found) ↦ absurd (ground arith)
  ]
]

start_after-IsStart :
    (model : String) (after : Option String) (s : State)
    → IsStart model after s (start_after model after s)
unfolding start_after
start_after-IsStart model none s = refl
start_after-IsStart model (some key) s =
    elim (Option-cases (index_where (λ k. str_eq k key) s.qc_pool.keys)) [
      | inl missing ↦ inr (index_where-missing key s.qc_pool.keys missing, rw missing refl)
      | inr (i, found) ↦
          let (k, at, same) = index_where-found (λ k. str_eq k key) s.qc_pool.keys found in
          inl (
            rw found (at ∙ ap some (eq_of_test k key same)),
            rw found (index_where-first key s.qc_pool.keys found),
          )
    ]

first_slot-IsMoved :
    (model : String) (after : Option String) (s : State) (i : ℕ) (k : String)
    → IsFirst s model (start_after model after s) 1 (suc (length s.qc_pool.keys)) i k
    → IsMoved model after s (take_slot model i s)
unfolding take_slot
first_slot-IsMoved model after s i k f = record {
  start = start_after model after s;
  starts = start_after-IsStart model after s;
  offset = f.offset;
  from = f.from;
  below = omega (arith, f.below);
  slot = i;
  place = f.place;
  key = k;
  listed = f.listed;
  usable = λ barred. ground (arith, f.eligible, not_eligible-IsBarred s model k barred);
  earlier = λ p other ge lt at. IsBarred-not_eligible s model other (f.earlier p other ge lt at);
  moved = refl;
}

-- A rotation for a model starts at the slot of the key that failed, or at the model's own slot if that
-- key is gone, and moves to the first key behind it, in ring order, that is not quarantined and has
-- quota left for the model: the model's slot is then that key's, one failover is counted and sent, and
-- nothing else changes. It answers false, with no change, only where every key of the pool is
-- quarantined or has used up the model's quota.
pub rotate_qc_key_for_model-IsMoved :
    (model : String) (after : Option String) (s : State)
    → ((rotate_qc_key_for_model model after s ≡ (false, s))
        × ((j : ℕ) (k : String) → get_elem? s.qc_pool.keys j ≡ some k → IsBarred s model k))
      ⊎ (((rotate_qc_key_for_model model after s).0 ≡ true)
          × IsMoved model after s (rotate_qc_key_for_model model after s).1)
rotate_qc_key_for_model-IsMoved model after s = elim (rotate_qc_key_for_model_lem model after s) [
  | inl (stays, all_used) ↦ inl (stays, λ j k at. IsBarred-not_eligible s model k (all_used j k at))
  | inr (i, k, first, moves) ↦ inr (rw moves (refl, first_slot-IsMoved model after s i k first))
]
