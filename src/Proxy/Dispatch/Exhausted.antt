-- ===== src/Proxy/Dispatch/Exhausted.antt =====
-- When a dispatch to a custom provider gives up (app/routers/proxy.py).
use mathlib.Core.Path.{subst}
use custorouter.Common.{
  ◌⊎◌, eq_of_test, ◌≤◌, ◌≡◌, ◌≢◌, inl, inr, Bool, true, false, Option, some, String, List, [], ◌∷◌,
  arith, elem, length, count, lookup, str_eq, Bool-cases, ◌∙◌, sym, ap, ◌%◌,
}
use custorouter.Keys.State.{State, ProviderInfo}
use custorouter.Keys.Custom.{keys_of, index_of, rotate_custom_key}
use custorouter.Proxy.Retry.{should_retry_custom_key}
use custorouter.Proxy.Dispatch.{
  Answer, Outcome, served, failed, outcome_of, attempt_order, try_keys, dispatch_custom_provider,
}
use custorouter.Proxy.Dispatch.Order.{elem-ring_from}
use custorouter.Proxy.Dispatch.Attempts.{
  Outcome-cases, stops, stops_last, try_keys_stop, try_keys_next,
}
use custorouter.Proxy.Dispatch.Laws.{
  attempt_order_ring, dispatch_custom_provider_eq, is_empty_of_ne,
}

abbrev pub is_retryable : Outcome → Bool
is_retryable (served body) = false
is_retryable (failed status detail) = should_retry_custom_key status detail

-- The loop stops at a failure that may be retried only if no key is left.
stops_retryable :
    (attempt : String → Outcome) (prefix k l : String) (ks : List String)
    → is_retryable (attempt k) ≡ true
    → stops attempt prefix k (l ∷ ks) ≡ false
stops_retryable attempt prefix k l ks h = elim (Outcome-cases (attempt k)) [
  | inl (body, e) ↦ absurd (ground arith)
  | inr (status, detail, e) ↦ ground arith
]

goes_on_retryable :
    (attempt : String → Outcome) (prefix k : String) (ks : List String)
    → stops attempt prefix k ks ≡ false
    → is_retryable (attempt k) ≡ true
goes_on_retryable attempt prefix k ks h = elim (Outcome-cases (attempt k)) [
  | inl (body, e) ↦ absurd (ground arith)
  | inr (status, detail, e) ↦ ground arith
]

elem_cases :
    (k j : String) (ks : List String) → elem k (j ∷ ks) ≡ true → (j ≡ k) ⊎ (elem k ks ≡ true)
elem_cases k j ks h = elim (Bool-cases (str_eq j k)) [
  | inl here ↦ inl (eq_of_test j k here)
  | inr later ↦ inr (ground arith)
]

-- A loop that stops at its first key answers with the outcome of that key.
stopped_retryable :
    (attempt : String → Outcome) (prefix j : String) (ks : List String) (s : State)
    → stops attempt prefix j ks ≡ true
    → is_retryable (try_keys attempt prefix (j ∷ ks) s).0 ≡ true
    → is_retryable (attempt j) ≡ true
stopped_retryable attempt prefix j ks s last h =
    ap (λ r. is_retryable r.0) (sym (try_keys_stop attempt prefix j ks s last)) ∙ h

try_keys-exhausted :
    (attempt : String → Outcome) (prefix : String) (l : List String) (s : State) (k : String)
    → is_retryable (try_keys attempt prefix l s).0 ≡ true
    → elem k l ≡ true
    → is_retryable (attempt k) ≡ true
try_keys-exhausted attempt prefix [] s k h e = absurd (ground arith)
try_keys-exhausted attempt prefix (j ∷ []) s k h e = elim (elem_cases k j [] e) [
  | inl same ↦
      subst (λ x. is_retryable (attempt x) ≡ true) same
        (stopped_retryable attempt prefix j [] s (stops_last attempt prefix j) h)
  | inr never ↦ absurd (ground arith)
]
try_keys-exhausted attempt prefix (j ∷ l ∷ ks) s k h e =
    elim (Bool-cases (stops attempt prefix j (l ∷ ks))) [
      | inl last ↦
          let mine = stopped_retryable attempt prefix j (l ∷ ks) s last h in
          absurd (ground (arith, stops_retryable attempt prefix j l ks mine))
      | inr more ↦ elim (elem_cases k j (l ∷ ks) e) [
        | inl same ↦
            subst (λ x. is_retryable (attempt x) ≡ true) same
              (goes_on_retryable attempt prefix j (l ∷ ks) more)
        | inr later ↦
            try_keys-exhausted attempt prefix (l ∷ ks) (rotate_custom_key prefix s).1 k
              (ap (λ r. is_retryable r.0) (sym (try_keys_next attempt prefix j (l ∷ ks) s more))
                ∙ h)
              later
      ]
    ]

-- A dispatch answers with a failure that may be retried only if every key of the provider's pool, each
-- of which stands there once, was refused with such a failure.
pub dispatch_custom_provider-exhausted :
    (translate : String → Option String) (send : ProviderInfo → String → Answer) (prefix : String)
    (stream : Bool) (info : ProviderInfo) (k : String) (s : State)
    → lookup prefix s.custom_providers ≡ some info
    → keys_of prefix s ≢ []
    → ((j : String) → count j (keys_of prefix s) ≤ 1)
    → is_retryable (dispatch_custom_provider translate send prefix stream s).0 ≡ true
    → elem k (keys_of prefix s) ≡ true
    → is_retryable (outcome_of translate info stream (send info k)) ≡ true
dispatch_custom_provider-exhausted translate send prefix stream info k s known ne once h e =
    let attempt : String → Outcome = λ key. outcome_of translate info stream (send info key) in
    let eq =
      dispatch_custom_provider_eq translate send prefix stream info s known
        (is_empty_of_ne (keys_of prefix s) ne) in
    try_keys-exhausted attempt prefix (attempt_order prefix s) s k
      (ap (λ r. is_retryable r.0) (sym eq) ∙ h)
      (rw (attempt_order_ring prefix s ne once)
        (elem-ring_from k (index_of prefix s % length (keys_of prefix s)) (keys_of prefix s) e))
