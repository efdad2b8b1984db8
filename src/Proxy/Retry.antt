-- ===== src/Proxy/Retry.antt =====
-- app/routers/proxy.py: the classification of upstream failures, and the Qwen Cloud rotation after one.
--
-- The body of the answer stands as the lower-cased text that `json.dumps` makes of it.
pub mod Laws
use custorouter.Common.{
  ℕ, Bool, true, false, not, ◌||◌, ◌&&◌, Option, some, String, List, [], ◌∷◌, ◌==◌, if◌then◌else◌,
  contains_text, take_text,
}
use custorouter.Keys.State.{State}
use custorouter.Keys.Qwen.{mark_qc_key_invalid, mark_qc_model_exhausted, rotate_qc_key_for_model}

-- `status_code in {…}`
abbrev pub among : ℕ → List ℕ → Bool
among n [] = false
among n (m ∷ ms) = n == m || among n ms

abbrev pub retryable_statuses : List ℕ
retryable_statuses = 401 ∷ 402 ∷ 403 ∷ 404 ∷ 429 ∷ 500 ∷ 502 ∷ 503 ∷ 504 ∷ []

-- `any(term in detail for term in terms)`
abbrev pub mentions : String → List String → Bool
mentions detail [] = false
mentions detail (t ∷ ts) = contains_text t detail || mentions detail ts

abbrev pub credit_terms : List String
credit_terms =
    "out of credit" ∷ "out_of_credit" ∷ "out of credits" ∷ "insufficient credit"
    ∷ "insufficient balance" ∷ "credits exhausted" ∷ "credit exhausted" ∷ "no credits left"
    ∷ "quota exceeded" ∷ "quota_exceeded" ∷ "insufficient_quota" ∷ "billing limit" ∷ "余额不足" ∷ "积分不足"
    ∷ []

unfoldable pub should_retry_custom_key : ℕ → String → Bool
should_retry_custom_key status detail =
    if among status retryable_statuses
    then true
    else if not (status == 400)
    then false
    else mentions (take_text 4096 detail) credit_terms

abbrev pub quota_terms : List String
quota_terms =
    "quota" ∷ "rate limit" ∷ "rate_limit" ∷ "insufficient balance" ∷ "resource exhausted"
    ∷ "allocation exhausted" ∷ []

unfoldable pub is_qc_model_quota_error : ℕ → String → Bool
is_qc_model_quota_error status detail =
    if among status (402 ∷ 429 ∷ []) then true else mentions detail quota_terms

abbrev pub rejection_terms : List String
rejection_terms =
    "invalid_api_key" ∷ "invalid api key" ∷ "incorrect api key" ∷ "api key is invalid"
    ∷ "apikey-error" ∷ []

unfoldable pub is_qc_invalid_key_error : ℕ → String → Bool
is_qc_invalid_key_error status detail =
    if not (among status (401 ∷ 403 ∷ [])) then false else mentions detail rejection_terms

pub rotate_qc_after_failure : String → String → ℕ → String → State → Bool × State
rotate_qc_after_failure model key status detail s =
    let quarantined =
      if is_qc_invalid_key_error status detail then mark_qc_key_invalid key s else s in
    let marked =
      if is_qc_model_quota_error status detail
      then mark_qc_model_exhausted key model quarantined
      else quarantined in
    rotate_qc_key_for_model model (some key) marked
