-- ===== src/Proxy/Tests/Retry.antt =====
-- Tests and examples of the failures of app/routers/proxy.py.
use custorouter.Common.{◌≡◌, refl, true, false, has_prefix, contains_text, take_text}
use custorouter.Proxy.Retry.{should_retry_custom_key}

out_of_credit_is_retried : should_retry_custom_key 400 "{\"error\": \"insufficient_quota\"}" ≡ true
unfolding should_retry_custom_key contains_text has_prefix take_text
out_of_credit_is_retried = refl

bad_request_is_not_retried : should_retry_custom_key 400 "{\"error\": \"bad image\"}" ≡ false
unfolding should_retry_custom_key contains_text has_prefix take_text
bad_request_is_not_retried = refl
