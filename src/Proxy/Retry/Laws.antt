-- ===== src/Proxy/Retry/Laws.antt =====
-- Which key is used after a failed Qwen Cloud attempt (app/routers/proxy.py).
use custorouter.Common.{
  ℕ, ◌≡◌, ◌≢◌, inl, inr, true, false, some, String, if◌then◌else◌, elem, Bool-cases, ◌∙◌,
}
use custorouter.Keys.State.{State}
use custorouter.Keys.Qwen.{
  is_eligible, get_current_qc_key_for_model, mark_qc_key_invalid, mark_qc_model_exhausted,
}
use custorouter.Keys.Qwen.Marks.{
  is_eligible-rotate, is_eligible-mark_keeps, is_eligible-mark_self, is_eligible-invalid,
  get_current_qc_key_for_model-ineligible,
}
use custorouter.Proxy.Retry.{
  is_qc_model_quota_error, is_qc_invalid_key_error, rotate_qc_after_failure,
}

-- After a failure that reads as a used-up quota, the key that failed is not answered for that model
-- again, whether or not another key was found.
pub rotate_qc_after_failure-quota :
    (model key detail : String) (status : ℕ) (s : State)
    → key ≢ ""
    → is_qc_model_quota_error status detail ≡ true
    → (get_current_qc_key_for_model model (rotate_qc_after_failure model key status detail s).1).0
      ≢ key
unfolding rotate_qc_after_failure
rotate_qc_after_failure-quota model key detail status s ne quota =
    let quarantined : State =
      if is_qc_invalid_key_error status detail then mark_qc_key_invalid key s else s in
    get_current_qc_key_for_model-ineligible key model _ ne (
      rw quota (
        is_eligible-rotate model model key (some key)
          (mark_qc_model_exhausted key model quarantined)
        ∙ is_eligible-mark_self key model quarantined))

-- After a failure that reads as a rejected credential, the key that failed, if the pool lists it, is
-- answered for no model at all.
pub rotate_qc_after_failure-rejected :
    (model m key detail : String) (status : ℕ) (s : State)
    → key ≢ ""
    → elem key s.qc_pool.keys ≡ true
    → is_qc_invalid_key_error status detail ≡ true
    → (get_current_qc_key_for_model m (rotate_qc_after_failure model key status detail s).1).0 ≢ key
unfolding rotate_qc_after_failure
rotate_qc_after_failure-rejected model m key detail status s ne listed rejected =
    let bad = is_eligible-invalid key m s listed in
    let marked : State =
      if is_qc_model_quota_error status detail
      then mark_qc_model_exhausted key model (mark_qc_key_invalid key s)
      else mark_qc_key_invalid key s in
    let still : is_eligible marked m key ≡ false =
      elim (Bool-cases (is_qc_model_quota_error status detail)) [
        | inl quota ↦
            rw quota (is_eligible-mark_keeps key model m key (mark_qc_key_invalid key s) bad)
        | inr other ↦ rw other bad
      ] in
    get_current_qc_key_for_model-ineligible key m _ ne
      (rw rejected (is_eligible-rotate model m key (some key) marked ∙ still))
