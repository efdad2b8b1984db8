-- ===== src/OpenAi/Stream.antt =====
-- `make_anthropic_to_openai_stream_converter` and `_map_stop_reason` of app/translator_openai.py: the
-- events of an Anthropic stream become the chunks of an OpenAI stream.
--
-- The random ids and the time that each chunk carries are left out.
pub mod Indexed
pub mod Texts
mod Tests
use custorouter.Common.{
  ℕ, zero, suc, Bool, true, false, Option, none, some, String, List, [], ◌∷◌, ◌==◌, length, str_eq,
  nonempty, if◌then◌else◌,
}
use custorouter.Translator.Stream.Blocks.{Event, Block, Piece}

-- A falsy reason is none; an unknown one is `stop`.
unfoldable pub map_stop_reason : Option String → Option String
map_stop_reason none = none
map_stop_reason (some r) =
    if nonempty r
    then (if str_eq r "max_tokens"
        then some "length"
        else if str_eq r "tool_use"
        then some "tool_calls"
        else some "stop")
    else none

-- The `delta` of a chunk, or its `finish_reason`.
pub data Chunk : Type 0 where
  role : Chunk
  tool_start : ℕ → String → String → Chunk
  tool_arguments : ℕ → String → Chunk
  content : String → Chunk
  reasoning : String → Chunk
  finish : Option String → Chunk

-- `tool_index_by_block`, a dict from the block to the tool's index.
unfoldable pub index_at : ℕ → List (ℕ × ℕ) → Option ℕ
index_at block [] = none
index_at block ((b, i) ∷ m) = if b == block then some i else index_at block m

unfoldable pub set_index : ℕ → ℕ → List (ℕ × ℕ) → List (ℕ × ℕ)
set_index block i [] = (block, i) ∷ []
set_index block i ((b, j) ∷ m) = if b == block then (b, i) ∷ m else (b, j) ∷ set_index block i m

abbrev pub Converted : Type 0
Converted = Option Chunk × List (ℕ × ℕ)

unfoldable pub convert_delta : ℕ → Piece → List (ℕ × ℕ) → Option Chunk
unfolding index_at
convert_delta block (Piece.text_delta t) m = some (Chunk.content t)
convert_delta block (Piece.thinking_delta t) m = some (Chunk.reasoning t)
convert_delta block (Piece.input_json_delta t) m = elim (index_at block m) [
  | none ↦ none
  | some i ↦ some (Chunk.tool_arguments i t)
]

unfoldable pub convert_start : ℕ → Block → List (ℕ × ℕ) → Converted
unfolding set_index
convert_start block (Block.tool_use id name) m =
    (some (Chunk.tool_start (length m) id name), set_index block (length m) m)
convert_start block Block.text_block m = (none, m)
convert_start block Block.thinking_block m = (none, m)

-- One event: the chunk to send, if there is one, and the dict.
unfoldable pub convert : Event → List (ℕ × ℕ) → Converted
unfolding convert_delta convert_start map_stop_reason
convert (Event.message_start _ _ _) m = (some Chunk.role, m)
convert (Event.content_block_start block b) m = convert_start block b m
convert (Event.content_block_delta block piece) m = (convert_delta block piece m, m)
convert (Event.message_delta reason _) m =
    (if nonempty reason then some (Chunk.finish (map_stop_reason (some reason))) else none, m)
convert (Event.content_block_stop _) m = (none, m)
convert Event.ping m = (none, m)
convert Event.message_stop m = (none, m)

abbrev pub send : Option Chunk → List Chunk → List Chunk
send none cs = cs
send (some c) cs = c ∷ cs

-- The chunks of a stream of events.
unfoldable pub convert_all : List Event → List (ℕ × ℕ) → List Chunk
unfolding convert
convert_all [] m = []
convert_all (e ∷ es) m = let (c, m') = convert e m in send c (convert_all es m')
