-- ===== src/Keys/Qwen/Select.antt =====
-- What the Qwen Cloud selections of app/config.py choose.
use native.Mathlib.Nat.{zero-add}
use native.Mathlib.Numerals.{one-add}
use custorouter.Common.{
  ℕ, suc, ◌+◌, ◌≡◌, refl, ◌≢◌, ◌⊎◌, inl, inr, true, false, Option, none, some, String, List, [],
  ◌∷◌, arith, length, get_elem?, insert,
}
use custorouter.Keys.State.{State}
use custorouter.Keys.Qwen.{
  is_eligible, scan, start_of, start_after, take_slot, get_current_qc_key_for_model,
  rotate_qc_key_for_model,
}
use custorouter.Keys.Qwen.Scan.{IsFirst, Found, scan-Found, NoneEligible-all}

-- Every key of the pool is quarantined or has used up the model's quota.
abbrev pub AllUsedUp : State → String → Type 0
AllUsedUp s model =
    (j : ℕ) (k : String) → get_elem? s.qc_pool.keys j ≡ some k → is_eligible s model k ≡ false

abbrev remember : String → ℕ → State → State
remember model i s = record s { qc_model_key_index = insert model i s.qc_model_key_index }

abbrev get_keys : State → List String
get_keys s = s.qc_pool.keys

current_empty :
    (model : String) (s : State)
    → s.qc_pool.keys ≡ []
    → get_current_qc_key_for_model model s ≡ ("", s)
unfolding get_current_qc_key_for_model
current_empty model s e = ground arith

current_none :
    (model : String) (s : State)
    → scan s model (start_of model s) 0 (length s.qc_pool.keys) ≡ none
    → get_current_qc_key_for_model model s ≡ ("", s)
unfolding get_current_qc_key_for_model
current_none model s e = ground arith

current_some :
    (model : String) (s : State) {i : ℕ} {k : String}
    → scan s model (start_of model s) 0 (length s.qc_pool.keys) ≡ some (i, k)
    → s.qc_pool.keys ≢ []
    → get_current_qc_key_for_model model s ≡ (k, remember model i s)
unfolding get_current_qc_key_for_model
current_some model s e h = ground arith

rotate_none :
    (model : String) (after : Option String) (s : State)
    → scan s model (start_after model after s) 1 (length s.qc_pool.keys) ≡ none
    → rotate_qc_key_for_model model after s ≡ (false, s)
unfolding rotate_qc_key_for_model
rotate_none model after s e = ground arith

rotate_some :
    (model : String) (after : Option String) (s : State) {i : ℕ} {k : String}
    → scan s model (start_after model after s) 1 (length s.qc_pool.keys) ≡ some (i, k)
    → s.qc_pool.keys ≢ []
    → rotate_qc_key_for_model model after s ≡ (true, take_slot model i s)
unfolding rotate_qc_key_for_model
rotate_some model after s e h = ground arith

pub ne-nil_of_get_elem? :
    (xs : List String) (i : ℕ) {k : String} → get_elem? xs i ≡ some k → xs ≢ []
ne-nil_of_get_elem? [] i e = cc
ne-nil_of_get_elem? (x ∷ xs) i e = cc

-- The selection for a model returns the first eligible key in ring order from the model's index
-- and remembers its slot, changing nothing else; it returns no text, with no change, exactly where
-- every key of the pool is quarantined or has used up the model's quota.
pub get_current_qc_key_for_model_lem :
    (model : String) (s : State)
    → ((get_current_qc_key_for_model model s ≡ ("", s)) × AllUsedUp s model)
      ⊎ ((i : ℕ) × (k : String) × IsFirst s model (start_of model s) 0 (length s.qc_pool.keys) i k
          × (get_current_qc_key_for_model model s
              ≡ (k, record s { qc_model_key_index = insert model i s.qc_model_key_index })))
get_current_qc_key_for_model_lem model s =
    go (scan s model start 0 n) refl (scan-Found s model start 0 n)
  where
    n : ℕ
    n = length s.qc_pool.keys

    start : ℕ
    start = start_of model s

    go :
        (r : Option (ℕ × String))
        → scan s model start 0 n ≡ r
        → Found s model start 0 (0 + n) r
        → ((get_current_qc_key_for_model model s ≡ ("", s)) × AllUsedUp s model)
          ⊎ ((i : ℕ) × (k : String) × IsFirst s model start 0 n i k
              × (get_current_qc_key_for_model model s ≡ (k, remember model i s)))
    go none e f = inl (current_none model s e, λ j k at. NoneEligible-all s model start 0 j k f at)
    go (some (i, k)) e f =
        inr (i, k, rw zero-add at f, current_some model s e (ne-nil_of_get_elem? _ i f.listed))

-- The rotation for a model moves to the first eligible key behind the one that failed, or behind
-- the model's own slot if that key is gone, and counts one failover; it answers false, with no
-- change, exactly where every key of the pool is quarantined or has used up the model's quota.
pub rotate_qc_key_for_model_lem :
    (model : String) (after : Option String) (s : State)
    → ((rotate_qc_key_for_model model after s ≡ (false, s)) × AllUsedUp s model)
      ⊎ ((i : ℕ) × (k : String) × IsFirst s model
            (start_after model after s)
            1
            (suc (length s.qc_pool.keys))
            i
            k
          × (rotate_qc_key_for_model model after s ≡ (true, take_slot model i s)))
rotate_qc_key_for_model_lem model after s =
    go (scan s model start 1 n) refl (scan-Found s model start 1 n)
  where
    n : ℕ
    n = length s.qc_pool.keys

    start : ℕ
    start = start_after model after s

    go :
        (r : Option (ℕ × String))
        → scan s model start 1 n ≡ r
        → Found s model start 1 (1 + n) r
        → ((rotate_qc_key_for_model model after s ≡ (false, s)) × AllUsedUp s model)
          ⊎ ((i : ℕ) × (k : String) × IsFirst s model start 1 (suc n) i k
              × (rotate_qc_key_for_model model after s ≡ (true, take_slot model i s)))
    go none e f =
        inl (rotate_none model after s e, λ j k at. NoneEligible-all s model start 1 j k f at)
    go (some (i, k)) e f =
        inr (i, k, rw one-add at f, rotate_some model after s e (ne-nil_of_get_elem? _ i f.listed))
