-- ===== src/Keys/Qwen/Marks.antt =====
-- Quota marks, quarantine and resets of Qwen Cloud keys in app/config.py, and what they mean for
-- the selections.
use mathlib.Core.Option
use custorouter.Common.{
  Option, ℕ, zero, suc, ◌+◌, ◌%◌, ◌≡◌, refl, ◌≢◌, inl, inr, true, false, ◌&&◌, String, List, [],
  ◌∷◌, arith, length, get_elem?, lookup, insert, lookup-insert, lookup-erase, eq_iff, eq_refl,
  str_eq, if◌then◌else◌, or_else, elem, Dict, ◌∙◌, sym, ap, Option-cases,
}
use custorouter.Keys.State.{State, invalid}
use custorouter.Keys.Qwen.{
  is_qc_model_exhausted, is_eligible, scan, start_of, get_current_qc_key_for_model,
  mark_qc_model_exhausted, mark_qc_key_invalid, take_slot, rotate_qc_key_for_model,
  reset_qc_model_failures, points_at, reset_indices,
}
use custorouter.Keys.Qwen.Select.{get_current_qc_key_for_model_lem, rotate_qc_key_for_model_lem}

-- A mark sets one pair of a key and a model, and leaves every other pair as it was.
pub is_qc_model_exhausted-mark :
    (key model k m : String) (s : State)
    → is_qc_model_exhausted k m (mark_qc_model_exhausted key model s)
      ≡ (if str_eq key k && str_eq model m then true else is_qc_model_exhausted k m s)
unfolding is_qc_model_exhausted mark_qc_model_exhausted
is_qc_model_exhausted-mark key model k m s = ground (
  arith,
  eq_iff key k,
  lookup-insert key k (insert model true (or_else (lookup key s.qc_model_failures) []))
      s.qc_model_failures,
  lookup-insert model m true (or_else (lookup key s.qc_model_failures) []),
)

-- A marked key is no candidate for that model.
pub is_eligible-mark_self :
    (key model : String) (s : State)
    → is_eligible (mark_qc_model_exhausted key model s) model key ≡ false
unfolding is_eligible
is_eligible-mark_self key model s =
    ground (arith, is_qc_model_exhausted-mark key model key model s, eq_refl key, eq_refl model)

is_eligible-mark_ne :
    (key model m k : String) (s : State)
    → model ≢ m
    → is_eligible (mark_qc_model_exhausted key model s) m k ≡ is_eligible s m k
unfolding is_eligible mark_qc_model_exhausted
is_eligible-mark_ne key model m k s h =
    ground (arith, is_qc_model_exhausted-mark key model k m s, eq_iff model m)

-- A rotation changes no key's eligibility.
is_eligible-take_slot :
    (model m k : String) (i : ℕ) (s : State)
    → is_eligible (take_slot model i s) m k ≡ is_eligible s m k
unfolding is_eligible is_qc_model_exhausted take_slot
is_eligible-take_slot model m k i s = refl

pub is_eligible-rotate :
    (model m k : String) (after : Option String) (s : State)
    → is_eligible (rotate_qc_key_for_model model after s).1 m k ≡ is_eligible s m k
is_eligible-rotate model m k after s = elim (rotate_qc_key_for_model_lem model after s) [
  | inl (stays, _) ↦ rw stays refl
  | inr (i, key, _, moved) ↦ rw moved (is_eligible-take_slot model m k i s)
]

-- A mark makes no key eligible that was not.
pub is_eligible-mark_keeps :
    (key model m k : String) (s : State)
    → is_eligible s m k ≡ false
    → is_eligible (mark_qc_model_exhausted key model s) m k ≡ false
unfolding is_eligible mark_qc_model_exhausted
is_eligible-mark_keeps key model m k s h =
    ground (arith, is_qc_model_exhausted-mark key model k m s)

-- A scan reads only the pool and the eligibility of its keys.
scan-cong :
    (s t : State) (m : String)
    → t.qc_pool ≡ s.qc_pool
    → ((k : String) → is_eligible t m k ≡ is_eligible s m k)
    → (start lo count : ℕ) → scan t m start lo count ≡ scan s m start lo count
unfolding scan
scan-cong s t m pools same start lo zero = refl
scan-cong s t m pools same start lo (suc count) =
    let keys = s.qc_pool.keys in
    let ih = scan-cong s t m pools same start (lo + 1) count in
    elim (Option-cases (get_elem? keys ((start + lo) % length keys))) [
      | inl missing ↦ ground arith
      | inr (k, at) ↦ ground (arith, same k)
    ]

-- Quota is used up for one model only: a mark leaves the selection of every other model as it was.
pub get_current_qc_key_for_model-mark_ne :
    (key model m : String) (s : State)
    → model ≢ m
    → (get_current_qc_key_for_model m (mark_qc_model_exhausted key model s)).0
      ≡ (get_current_qc_key_for_model m s).0
unfolding get_current_qc_key_for_model mark_qc_model_exhausted
get_current_qc_key_for_model-mark_ne key model m s h =
    let t = mark_qc_model_exhausted key model s in
    let same =
      scan-cong s t m refl (λ k. is_eligible-mark_ne key model m k s h) (start_of m s) 0
        (length s.qc_pool.keys) in
    ground arith

-- The selection answers no key that is not eligible.
pub get_current_qc_key_for_model-ineligible :
    (key model : String) (t : State)
    → key ≢ ""
    → is_eligible t model key ≡ false
    → (get_current_qc_key_for_model model t).0 ≢ key
get_current_qc_key_for_model-ineligible key model t ne bad e =
    elim (get_current_qc_key_for_model_lem model t) [
      | inl (none_left, _) ↦ ne (sym e ∙ ap (λ r. r.0) none_left)
      | inr (i, k, first, chosen) ↦
          let same : k ≡ key = sym (ap (λ r. r.0) chosen) ∙ e in cc (first.eligible, bad)
    ]

-- After the mark, the selection for that model answers another key, or no text.
pub get_current_qc_key_for_model-mark_self :
    (key model : String) (s : State)
    → key ≢ ""
    → (get_current_qc_key_for_model model (mark_qc_model_exhausted key model s)).0 ≢ key
get_current_qc_key_for_model-mark_self key model s ne =
    get_current_qc_key_for_model-ineligible key model (mark_qc_model_exhausted key model s) ne
      (is_eligible-mark_self key model s)

pub is_eligible-invalid :
    (key model : String) (s : State)
    → elem key s.qc_pool.keys ≡ true
    → is_eligible (mark_qc_key_invalid key s) model key ≡ false
unfolding is_eligible mark_qc_key_invalid
is_eligible-invalid key model s h =
    ground (arith, lookup-insert key key invalid s.key_statuses, eq_refl key)

-- A quarantined key of the pool is answered for no model at all.
pub get_current_qc_key_for_model-invalid :
    (key model : String) (s : State)
    → key ≢ ""
    → elem key s.qc_pool.keys ≡ true
    → (get_current_qc_key_for_model model (mark_qc_key_invalid key s)).0 ≢ key
get_current_qc_key_for_model-invalid key model s ne h =
    get_current_qc_key_for_model-ineligible key model (mark_qc_key_invalid key s) ne
      (is_eligible-invalid key model s h)

lookup-reset_indices :
    (keys : List String) (key model : String) (d : Dict ℕ)
    → lookup model (reset_indices keys key d)
      ≡ Option.map (λ i. if points_at keys key i then 0 else i) (lookup model d)
unfolding lookup reset_indices
lookup-reset_indices keys key model [] = refl
lookup-reset_indices keys key model ((j, i) ∷ d) =
    ground (arith, lookup-reset_indices keys key model d)

-- A reset gives a key its quota back for every model, touches the quota of no other key, sends the
-- models whose slot holds the key back to slot 0, and leaves every other slot.
pub reset_qc_model_failures_lem :
    (key k model : String) (s : State)
    → (is_qc_model_exhausted k model (reset_qc_model_failures key s)
        ≡ (if str_eq key k then false else is_qc_model_exhausted k model s))
      × (lookup model (reset_qc_model_failures key s).qc_model_key_index
          ≡ Option.map
              (λ i. if points_at s.qc_pool.keys key i then 0 else i)
              (lookup model s.qc_model_key_index))
unfolding is_qc_model_exhausted reset_qc_model_failures lookup
reset_qc_model_failures_lem key k model s = (
  ground (arith, lookup-erase key k s.qc_model_failures),
  lookup-reset_indices s.qc_pool.keys key model s.qc_model_key_index,
)
