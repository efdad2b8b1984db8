-- ===== src/OpenAi/Stream/Tests.antt =====
-- A stream through the converter of app/translator_openai.py.
use custorouter.Common.{ℕ, ◌≡◌, refl, Bool, true, false, Option, none, some, String, List, [], ◌∷◌}
use custorouter.Translator.Stream.{Delta}
use custorouter.Translator.Stream as Upstream
use custorouter.Translator.Stream.Blocks.{Event, Block, Piece}
use custorouter.Translator.Stream.Protocol.{Phase}
use custorouter.Translator.Stream.Lines.{Body, Line, stream_as_anthropic}
use custorouter.OpenAi.Stream.{Chunk, convert_all}
use custorouter.OpenAi.Stream.Indexed.{are_indexed, convert_all-indexed}
use custorouter.OpenAi.Stream.Texts.{chunk_texts, convert_all-stream_as_anthropic}

abbrev events : List Event
events =
    Event.message_start "m" "x" 1
    ∷ Event.content_block_start 0 Block.thinking_block
    ∷ Event.content_block_delta 0 (Piece.thinking_delta "hm")
    ∷ Event.content_block_stop 0
    ∷ Event.content_block_start 1 (Block.tool_use "a" "f")
    ∷ Event.content_block_delta 1 (Piece.input_json_delta "{}")
    ∷ Event.content_block_stop 1
    ∷ Event.message_delta "tool_use" 1
    ∷ Event.message_stop
    ∷ []

converted_events :
    convert_all events []
    ≡ Chunk.role
      ∷ Chunk.reasoning "hm"
      ∷ Chunk.tool_start 0 "a" "f"
      ∷ Chunk.tool_arguments 0 "{}"
      ∷ Chunk.finish (some "tool_calls")
      ∷ []
unfolding convert_all
converted_events = refl

convert_all-indexed_example : are_indexed 0 (convert_all events []) ≡ true
convert_all-indexed_example = convert_all-indexed events Phase.ended refl

abbrev ascii_only : ℕ → Bool
ascii_only c = false

abbrev no_id : ℕ → String
no_id i = "call_0"

abbrev no_body : String → Option Body
no_body s = none

abbrev saying : String → Line
saying t = Line.chunk (
    Upstream.Chunk.choice (record { reasoning_content = none; content = some t; tool_calls = [] })
      none none)

abbrev lines : List Line
lines = saying "Hello there, this is a text." ∷ saying " And more." ∷ Line.done ∷ []

convert_all-stream_as_anthropic_example :
    (chunk_texts
        (convert_all (stream_as_anthropic ascii_only no_id true no_body "m" "x" 3 lines).events [])
      ≡ "Hello there, this is a text. And more.")
    × (are_indexed 0 (
          convert_all (stream_as_anthropic ascii_only no_id true no_body "m" "x" 3 lines).events [])
        ≡ true)
unfolding stream_as_anthropic
convert_all-stream_as_anthropic_example =
    convert_all-stream_as_anthropic ascii_only no_id true no_body "m" "x" 3 lines refl refl refl
