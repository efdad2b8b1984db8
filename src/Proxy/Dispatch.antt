-- ===== src/Proxy/Dispatch.antt =====
-- app/routers/proxy.py: `_dispatch_custom_provider`, the attempts over the keys of a custom provider.
--
-- What an upstream answers to a key, and the translation of a completion, are parameters; a body
-- stands as the lower-cased text that `json.dumps` makes of it, and a stream as what it begins with.
-- The router's own errors stand as their messages: their statuses alone decide what follows.
pub mod Order
pub mod Attempts
pub mod Laws
pub mod Exhausted
use custorouter.Common.{
  ℕ, Bool, true, false, not, ◌&&◌, Option, none, some, String, List, [], ◌∷◌, ◌++◌, ◌==◌,
  if◌then◌else◌, is_empty, take, drop, or_else, lookup, str_eq, index_where,
}
use custorouter.Keys.State.{State, ProviderInfo}
use custorouter.Keys.Add.{◌+text+◌}
use custorouter.Keys.Custom.{keys_of, get_current_custom_key, rotate_custom_key}
use custorouter.Proxy.Retry.{should_retry_custom_key}

-- What an attempt comes to: an exception, of the connection or in the reading of the reply; a reply; or
-- a reply of status 200 whose body is an error, which a stream shows in its first event.
pub data Answer : Type 0 where
  broken : String → Answer
  replied : ℕ → String → Answer
  in_band : String → Answer

pub data Outcome : Type 0 where
  served : String → Outcome
  failed : ℕ → String → Outcome

-- A completion for an OpenAI-compatible upstream that is not a stream goes through the translation,
-- which raises where it has no answer.
abbrev pub translated : (String → Option String) → String → Outcome
translated translate body = elim (translate body) [
  | none ↦ failed 502 body
  | some message ↦ served message
]

abbrev pub accepted : (String → Option String) → ProviderInfo → Bool → String → Outcome
accepted translate info stream body =
    if str_eq info.api_format "anthropic"
    then served body
    else if stream
    then served body
    else translated translate body

-- Only the OpenAI-compatible stream looks at its first event before it is returned.
unfoldable pub outcome_of : (String → Option String) → ProviderInfo → Bool → Answer → Outcome
outcome_of translate info stream (broken message) = failed 502 message
outcome_of translate info stream (replied status body) =
    if status == 200 then accepted translate info stream body else failed status body
outcome_of translate info stream (in_band message) =
    if str_eq info.api_format "anthropic"
    then served message
    else if stream
    then failed 502 message
    else translated translate message

-- `keys[start_index:] + keys[:start_index]`
abbrev pub ring_from : ℕ → List String → List String
ring_from i keys = drop i keys ++ take i keys

-- The keys in the order of the attempts.
unfoldable pub attempt_order : String → State → List String
attempt_order prefix s =
    let keys = keys_of prefix s in
    ring_from (or_else (index_where (λ k. str_eq k (get_current_custom_key prefix s)) keys) 0) keys

-- The loop: a failure that may be retried rotates the pool while a key is left. The flag in
-- `retry_state`, which the loop only sets, is left out.
unfoldable pub try_keys : (String → Outcome) → String → List String → State → Outcome × State
try_keys attempt prefix [] s = (failed 502 "All configured keys for this provider failed.", s)
try_keys attempt prefix (key ∷ ks) s =
    let later = try_keys attempt prefix ks (rotate_custom_key prefix s).1 in
    elim (attempt key) [
      | served body ↦ (served body, s)
      | failed status detail ↦
          if should_retry_custom_key status detail && not (is_empty ks)
          then later
          else (failed status detail, s)
    ]

unfoldable pub dispatch_custom_provider :
    (String → Option String)
    → (ProviderInfo → String → Answer)
    → String
    → Bool
    → State
    → Outcome × State
unfolding outcome_of attempt_order try_keys
dispatch_custom_provider translate send prefix stream s = elim (lookup prefix s.custom_providers) [
  | none ↦ (failed 400 ("Unknown provider '" +text+ prefix +text+ "'"), s)
  | some info ↦
      if is_empty (keys_of prefix s)
      then (failed 500 ("No API keys configured for provider '" +text+ prefix +text+ "'"), s)
      else try_keys (λ key. outcome_of translate info stream (send info key)) prefix
          (attempt_order prefix s) s
]
