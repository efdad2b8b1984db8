-- ===== src/Keys/Journal.antt =====
-- app/config.py: `add_request_log`, the counters and the ring of recent requests.
pub mod Laws
use custorouter.Common.{
  ℕ, ◌+◌, Bool, Option, none, some, String, List, [], ◌∷◌, ltb, if◌then◌else◌, length, or_else,
  take_text,
}
use custorouter.Keys.State.{State, LogItem, send, persist_log}
use custorouter.Keys.Add.{◌+text+◌}
use custorouter.Keys.Catalog.{provider_from_model}

-- `xs.pop()` without its answer
abbrev pub drop_last : List LogItem → List LogItem
drop_last [] = []
drop_last (x ∷ []) = []
drop_last (x ∷ y ∷ xs) = x ∷ drop_last (y ∷ xs)

-- `recent_requests.insert(0, item)`, and the pop beyond 20 entries.
pub push_recent : LogItem → List LogItem → List LogItem
push_recent item recent =
    let longer = item ∷ recent in if ltb 20 (length longer) then drop_last longer else longer

-- The arguments of `add_request_log`; the clock is the instant of the call.
pub record Call : Type 0 where
  pub model : String
  pub status_code : ℕ
  pub key_used : String
  pub rotated : Bool
  pub latency_ms : ℕ
  pub input_tokens : ℕ
  pub output_tokens : ℕ
  pub cached_tokens : ℕ
  pub provider : Option String

pub item_of : ℕ → Call → LogItem
item_of clock c = record {
  clock = clock;
  model = c.model;
  status_code = c.status_code;
  key_used = take_text 15 c.key_used +text+ "...";
  rotated = c.rotated;
  latency_ms = c.latency_ms;
  provider = or_else c.provider (provider_from_model c.model);
  input_tokens = c.input_tokens;
  output_tokens = c.output_tokens;
  cached_tokens = c.cached_tokens;
}

pub add_request_log : ℕ → Call → State → State
unfolding push_recent item_of
add_request_log clock c s =
    let item = item_of clock c in
    send (persist_log item) (record s {
      total_requests = s.total_requests + 1;
      total_tokens = s.total_tokens + (c.input_tokens + c.output_tokens);
      recent_requests = push_recent item s.recent_requests;
    })
