-- ===== src/Proxy/Tests/Dispatch.antt =====
-- Tests and examples of the dispatch to a custom provider (app/routers/proxy.py).
use mathlib.Core.Path.{subst}
use custorouter.Common.{
  ◌≤◌, ◌≡◌, ◌≢◌, refl, inl, inr, true, false, some, String, [], ◌∷◌, arith, count, str_eq,
  eq_of_test, Bool-cases, lookup, if◌then◌else◌,
}
use custorouter.Keys.State.{ProviderInfo}
use custorouter.Keys.Custom.{keys_of, get_current_custom_key}
use custorouter.Proxy.Dispatch.{
  Answer, replied, broken, attempt_order, try_keys, outcome_of, dispatch_custom_provider,
}
use custorouter.Proxy.Dispatch.Laws.{dispatch_custom_provider-current}
use custorouter.Proxy.Dispatch.Exhausted.{is_retryable, dispatch_custom_provider-exhausted}
use custorouter.Proxy.Retry.{should_retry_custom_key}
use custorouter.Proxy.Tests.{acme, two_keys}

-- The first key works, the second has no quota.
abbrev upstream : ProviderInfo → String → Answer
upstream info key = if str_eq key "one" then replied 200 "{}" else replied 429 ""

abbrev outage : ProviderInfo → String → Answer
outage info key = broken "ConnectError"

each_once : (k : String) → count k ("one" ∷ "two" ∷ []) ≤ 1
each_once k = elim (Bool-cases (str_eq "one" k)) [
  | inl same ↦ subst (λ x. count x ("one" ∷ "two" ∷ []) ≤ 1) (eq_of_test "one" k same) (omega arith)
  | inr differs ↦ elim (Bool-cases (str_eq "two" k)) [
    | inl same ↦
        subst (λ x. count x ("one" ∷ "two" ∷ []) ≤ 1) (eq_of_test "two" k same) (omega arith)
    | inr neither ↦ rw (differs, neither) (omega arith)
  ]
]

not_empty : keys_of "acme" two_keys ≢ []
unfolding lookup
not_empty e = cc

dispatch_custom_provider-current_example :
    (dispatch_custom_provider (λ body. some body) upstream "acme" false two_keys).0
    ≡ outcome_of
        (λ body. some body)
        acme
        false
        (upstream acme (
          get_current_custom_key "acme"
            (dispatch_custom_provider (λ body. some body) upstream "acme" false two_keys).1))
unfolding lookup
dispatch_custom_provider-current_example =
    dispatch_custom_provider-current (λ body. some body) upstream "acme" false acme two_keys refl
      not_empty each_once

dispatch_custom_provider-exhausted_example :
    is_retryable (outcome_of (λ body. some body) acme false (outage acme "one")) ≡ true
unfolding lookup dispatch_custom_provider attempt_order get_current_custom_key try_keys outcome_of
    should_retry_custom_key
dispatch_custom_provider-exhausted_example =
    dispatch_custom_provider-exhausted (λ body. some body) outage "acme" false acme "one" two_keys
      refl not_empty each_once refl refl
