-- ===== src/Proxy/Dispatch/Attempts.antt =====
-- The loop of a dispatch to a custom provider, attempt by attempt (app/routers/proxy.py).
use custorouter.Common.{
  ℕ, ◌≡◌, refl, ◌⊎◌, inl, inr, Bool, true, false, not, ◌&&◌, String, List, [], ◌∷◌, arith, is_empty,
  Bool-cases, sym, ap,
}
use custorouter.Keys.State.{State}
use custorouter.Keys.Custom.{get_current_custom_key, rotate_custom_key}
use custorouter.Proxy.Retry.{should_retry_custom_key}
use custorouter.Proxy.Dispatch.{Outcome, served, failed, try_keys}

-- The keys are the current ones, one rotation after another.
abbrev pub Follows : String → List String → State → Type 0
Follows prefix [] s = Unit
Follows prefix (k ∷ []) s = get_current_custom_key prefix s ≡ k
Follows prefix (k ∷ l ∷ ks) s =
    (get_current_custom_key prefix s ≡ k) × Follows prefix (l ∷ ks) (rotate_custom_key prefix s).1

pub Outcome-cases :
    (o : Outcome)
    → ((body : String) × (o ≡ served body))
      ⊎ ((status : ℕ) × (detail : String) × (o ≡ failed status detail))
Outcome-cases (served body) = inl (body, refl)
Outcome-cases (failed status detail) = inr (status, detail, refl)

module _ (attempt : String → Outcome) (prefix : String) where
  -- The two ways in which the loop goes on at a key.
  abbrev pub stops : String → List String → Bool
  stops k ks = elim (attempt k) [
    | served body ↦ true
    | failed status detail ↦ not (should_retry_custom_key status detail && not (is_empty ks))
  ]

  pub try_keys_stop :
      (k : String) (ks : List String) (s : State)
      → stops k ks ≡ true
      → try_keys attempt prefix (k ∷ ks) s ≡ (attempt k, s)
  unfolding try_keys
  try_keys_stop k ks s h = elim (Outcome-cases (attempt k)) [
    | inl (body, e) ↦ rw (e, try_keys) refl
    | inr (status, detail, e) ↦
        let no_more : (should_retry_custom_key status detail && not (is_empty ks)) ≡ false =
          ground arith in
        rw (e, try_keys, no_more) refl
  ]

  pub try_keys_next :
      (k : String) (ks : List String) (s : State)
      → stops k ks ≡ false
      → try_keys attempt prefix (k ∷ ks) s
        ≡ try_keys attempt prefix ks (rotate_custom_key prefix s).1
  unfolding try_keys
  try_keys_next k ks s h = elim (Outcome-cases (attempt k)) [
    | inl (body, e) ↦ absurd (ground arith)
    | inr (status, detail, e) ↦
        let more : (should_retry_custom_key status detail && not (is_empty ks)) ≡ true =
          ground arith in
        rw (e, try_keys, more) refl
  ]

  pub stops_last : (k : String) → stops k [] ≡ true
  stops_last k = elim (Outcome-cases (attempt k)) [
    | inl (body, e) ↦ ground arith
    | inr (status, detail, e) ↦ ground arith
  ]

  pub try_keys-current :
      (k : String) (ks : List String) (s : State)
      → Follows prefix (k ∷ ks) s
      → (try_keys attempt prefix (k ∷ ks) s).0
        ≡ attempt (get_current_custom_key prefix (try_keys attempt prefix (k ∷ ks) s).1)
  try_keys-current k [] s here = rw (try_keys_stop k [] s (stops_last k)) (ap attempt (sym here))
  try_keys-current k (l ∷ ks) s (here, later) = elim (Bool-cases (stops k (l ∷ ks))) [
    | inl last ↦ rw (try_keys_stop k (l ∷ ks) s last) (ap attempt (sym here))
    | inr more ↦
        rw (try_keys_next k (l ∷ ks) s more)
          (try_keys-current l ks (rotate_custom_key prefix s).1 later)
  ]
