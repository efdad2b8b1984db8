-- ===== src/Translator/Stream/Tests.antt =====
-- Runs of `stream_as_anthropic` (app/translator.py).
use custorouter.Common.{
  ℕ, Bool, true, false, Option, none, some, String, List, [], ◌∷◌, ◌≡◌, refl, drop_text, take_text,
}
use custorouter.Translator.Tags.{find_open}
use custorouter.Translator.Stream.{Chunk, finish_stream, feed_chunks}
use custorouter.Translator.Stream.Blocks.{
  Event, Block, Piece, new_stream, emit, stop_current, send, enter, flush_text,
}
use custorouter.Translator.Stream.Tools.{tool_deltas, flush_before_tools}
use custorouter.Translator.Stream.Text.{feed_text}
use custorouter.Translator.Stream.Text.Settled.{IsSettled, feed_text-IsSettled}
use custorouter.Translator.Stream.Lines.{Line, Body, stream_as_anthropic, refused}
use custorouter.Translator.Stream.Lines.Laws.{
  stream_as_anthropic-IsFramed, stream_as_anthropic-sends, stream_as_anthropic-refused,
}
use custorouter.Translator.Stream.Protocol.{Phase, read_events}
use custorouter.Translator.Stream.Sent.{sent_text}

abbrev ascii_only : ℕ → Bool
ascii_only c = false

abbrev no_id : ℕ → String
no_id i = "call_0"

abbrev no_body : String → Option Body
no_body s = none

abbrev saying : String → Line
saying t = Line.chunk (
    Chunk.choice (record { reasoning_content = none; content = some t; tool_calls = [] }) none none)

abbrev weather_call : Line
weather_call = Line.chunk (
    Chunk.choice
      (record {
        reasoning_content = some "hm";
        content = none;
        tool_calls =
            record { index = some 0; id = some "a"; name = some "weather"; arguments = some "{}" }
            ∷ [];
      })
      (some "tool_calls") (some 7))

abbrev lines : List Line
lines = saying "Hello there, this is text." ∷ weather_call ∷ Line.done ∷ []

found_tag : find_open ascii_only "so <Think a=1>x" ≡ some (3, 11)
unfolding find_open
found_tag = refl

no_tag : find_open ascii_only "<thinker>" ≡ none
unfolding find_open
no_tag = refl

-- The held-back text comes behind the reasoning of a later chunk, and the call behind both.
relayed_lines :
    (stream_as_anthropic ascii_only no_id true no_body "m" "x" 3 lines).events
    ≡ Event.message_start "m" "x" 3
      ∷ Event.ping
      ∷ Event.content_block_start 0 Block.text_block
      ∷ Event.content_block_delta 0 (Piece.text_delta "Hello ")
      ∷ Event.content_block_stop 0
      ∷ Event.content_block_start 1 Block.thinking_block
      ∷ Event.content_block_delta 1 (Piece.thinking_delta "hm")
      ∷ Event.content_block_stop 1
      ∷ Event.content_block_start 2 Block.text_block
      ∷ Event.content_block_delta 2 (Piece.text_delta "there, this is text.")
      ∷ Event.content_block_stop 2
      ∷ Event.content_block_start 3 (Block.tool_use "a" "weather")
      ∷ Event.content_block_delta 3 (Piece.input_json_delta "{}")
      ∷ Event.content_block_stop 3
      ∷ Event.message_delta "tool_use" 9
      ∷ Event.message_stop
      ∷ []
unfolding stream_as_anthropic finish_stream emit stop_current feed_chunks tool_deltas
    flush_before_tools send enter feed_text new_stream find_open drop_text flush_text take_text
relayed_lines = refl

stream_as_anthropic-IsFramed_example :
    read_events Phase.before
      (stream_as_anthropic ascii_only no_id true no_body "m" "x" 3 lines).events
    ≡ some Phase.ended
unfolding stream_as_anthropic finish_stream emit stop_current feed_chunks
stream_as_anthropic-IsFramed_example =
    stream_as_anthropic-IsFramed ascii_only no_id true no_body "m" "x" 3 lines refl refl

stream_as_anthropic-sends_example :
    sent_text (stream_as_anthropic ascii_only no_id true no_body "m" "x" 3 lines).events
    ≡ "Hello there, this is text."
unfolding stream_as_anthropic
stream_as_anthropic-sends_example =
    stream_as_anthropic-sends ascii_only no_id true no_body "m" "x" 3 lines refl refl

stream_as_anthropic-refused_example :
    stream_as_anthropic ascii_only no_id true no_body "m" "x" 3
      (Line.unframed ": open" ∷ Line.failure (some "overloaded") ∷ lines)
    ≡ refused "overloaded"
stream_as_anthropic-refused_example =
    stream_as_anthropic-refused ascii_only no_id true no_body "m" "x" 3
      (Line.unframed ": open" ∷ []) (Line.failure (some "overloaded")) lines refl refl

feed_text-IsSettled_example :
    IsSettled ascii_only (feed_text ascii_only "a <think>b" (new_stream "m" "x" 3))
feed_text-IsSettled_example = feed_text-IsSettled ascii_only "a <think>b" (new_stream "m" "x" 3)

-- An upstream that returns to a call whose block was stopped: the argument goes to the stopped block.
abbrev returning : List Line
returning = weather_call ∷ saying "and" ∷ weather_call ∷ []

returning_breaks :
    read_events Phase.before
      (stream_as_anthropic ascii_only no_id true no_body "m" "x" 3 returning).events
    ≡ none
unfolding stream_as_anthropic finish_stream emit stop_current feed_chunks tool_deltas
    flush_before_tools send enter feed_text new_stream find_open drop_text flush_text take_text
returning_breaks = refl
