-- ===== src/Translator/Stream.antt =====
-- `stream_as_anthropic` of app/translator.py: the chunks of an OpenAI stream become the events of an
-- Anthropic stream.
--
-- The state holds the variables of the generator, and what it has yielded so far. `wide` is what `\w`
-- takes beyond ASCII, and `call_id` the random id of a tool call that has none, by its block.
pub mod Protocol
pub mod Blocks
pub mod Text
pub mod Tools
pub mod Sent
pub mod Received
pub mod Order
pub mod Orderly
pub mod Framed
pub mod Lines
mod Tests
use Blocks.{Kind, Event, Stream, emit, stop_current, enter, send, new_stream, flush_text, text_kind}
use Text.{feed_text}
use Tools.{ToolDelta, tool_deltas, flush_before_tools}
use custorouter.Common.{
  ℕ, suc, ◌+◌, Bool, true, false, ◌&&◌, Option, none, some, String, List, [], ◌∷◌, ◌==◌, str_eq,
  if◌then◌else◌, nonempty, not,
}

pub record Delta : Type 0 where
  pub reasoning_content : Option String
  pub content : Option String
  pub tool_calls : List ToolDelta

-- A chunk with an empty list of choices, or the first choice of one, each with
-- `usage.completion_tokens` if it is there.
pub data Chunk : Type 0 where
  usage_only : Option ℕ → Chunk
  choice : Delta → Option String → Option ℕ → Chunk

-- A number that is missing or 0 is falsy.
unfoldable pub count_tokens : Option ℕ → Stream → Stream
count_tokens none s = s
count_tokens (some n) s = if n == 0 then s else record s { output_tokens = n }

unfoldable pub note_finish : Option String → Stream → Stream
note_finish none s = s
note_finish (some fr) s = if nonempty fr then record s { finish_reason = fr } else s

unfoldable pub feed_reasoning : Bool → Option String → Stream → Stream
feed_reasoning show_reasoning none s = s
feed_reasoning show_reasoning (some r) s =
    if nonempty r && show_reasoning
    then send Kind.thinking r
        (let t = enter Kind.thinking s in record t { output_tokens = suc t.output_tokens })
    else s

unfoldable pub feed_content : (ℕ → Bool) → Option String → Stream → Stream
feed_content wide none s = s
feed_content wide (some text) s = if nonempty text then feed_text wide text s else s

module _ (wide : ℕ → Bool) (call_id : ℕ → String) (show_reasoning : Bool) where
  -- The body of `async for chunk in get_chunks()`.
  unfoldable pub feed_chunk : Chunk → Stream → Stream
  unfolding feed_content feed_reasoning count_tokens note_finish
  feed_chunk (usage_only tokens) s = count_tokens tokens s
  feed_chunk (choice delta fr tokens) s = tool_deltas call_id delta.tool_calls (
      flush_before_tools delta.tool_calls (
        feed_content wide delta.content (
          feed_reasoning show_reasoning delta.reasoning_content
            (count_tokens tokens (note_finish fr s)))))

  unfoldable pub feed_chunks : List Chunk → Stream → Stream
  unfolding feed_chunk
  feed_chunks [] s = s
  feed_chunks (c ∷ cs) s = feed_chunks cs (feed_chunk c s)

-- `{"tool_calls": "tool_use", "length": "max_tokens"}.get(finish_reason, "end_turn")`
unfoldable pub stop_reason_of : String → String
stop_reason_of reason =
    if str_eq reason "tool_calls"
    then "tool_use"
    else if str_eq reason "length"
    then "max_tokens"
    else "end_turn"

-- What follows the loop.
unfoldable pub finish_stream : Stream → Stream
unfolding stop_reason_of
finish_stream s =
    let flushed = if nonempty s.text_buffer then flush_text s else s in
    let closed = stop_current flushed in
    emit Event.message_stop
      (emit (Event.message_delta (stop_reason_of closed.finish_reason) closed.output_tokens) closed)

-- A stream that no error interrupts, from `message_start` on.
unfoldable pub relay_chunks :
    (ℕ → Bool) → (ℕ → String) → Bool → String → String → ℕ → List Chunk → Stream
unfolding feed_chunks finish_stream
relay_chunks wide call_id show_reasoning msg_id model input_tokens chunks =
    finish_stream
      (feed_chunks wide call_id show_reasoning chunks (new_stream msg_id model input_tokens))
