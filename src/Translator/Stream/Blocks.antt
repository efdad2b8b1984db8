-- ===== src/Translator/Stream/Blocks.antt =====
-- The content blocks of `stream_as_anthropic` (app/translator.py): the block that is open, and the
-- helpers that stop it, open one and send into it.
pub mod Framed
use custorouter.Common.{
  ℕ, suc, Bool, true, false, Option, none, some, String, List, [], ◌∷◌, ◌==◌, if◌then◌else◌, snoc,
}

-- `current["kind"]`, with the `tool_idx` of a tool's block.
pub data Kind : Type 0 where
  text : Kind
  thinking : Kind
  tool : ℕ → Kind

pub record Current : Type 0 where
  pub kind : Kind
  pub index : ℕ

-- The empty block of a `content_block_start`.
pub data Block : Type 0 where
  text_block : Block
  thinking_block : Block
  tool_use : String → String → Block

pub data Piece : Type 0 where
  text_delta : String → Piece
  thinking_delta : String → Piece
  input_json_delta : String → Piece

pub data Event : Type 0 where
  message_start : String → String → ℕ → Event
  ping : Event
  content_block_start : ℕ → Block → Event
  content_block_delta : ℕ → Piece → Event
  content_block_stop : ℕ → Event
  message_delta : String → ℕ → Event
  message_stop : Event

pub record ToolCall : Type 0 where
  pub id : String
  pub name : String
  pub block_index : ℕ

-- `tool_calls[idx]`
unfoldable pub call_at : ℕ → List (ℕ × ToolCall) → Option ToolCall
call_at idx [] = none
call_at idx ((i, call) ∷ calls) = if i == idx then some call else call_at idx calls

pub record Stream : Type 0 where
  pub current : Option Current
  pub tool_calls : List (ℕ × ToolCall)
  pub next_block : ℕ
  pub finish_reason : String
  pub output_tokens : ℕ
  pub text_buffer : String
  pub in_text_thinking : Bool
  pub events : List Event

-- The variables at the start, and the two events that open a stream.
unfoldable pub new_stream : String → String → ℕ → Stream
new_stream msg_id model input_tokens = record {
  current = none;
  tool_calls = [];
  next_block = 0;
  finish_reason = "stop";
  output_tokens = 0;
  text_buffer = "";
  in_text_thinking = false;
  events = Event.message_start msg_id model input_tokens ∷ Event.ping ∷ [];
}

unfoldable pub emit : Event → Stream → Stream
emit e s = record s { events = snoc s.events e }

unfoldable pub stop_current : Stream → Stream
unfolding emit
stop_current s = elim s.current [
  | none ↦ s
  | some c ↦ emit (Event.content_block_stop c.index) (record s { current = none })
]

unfoldable pub open_block : Kind → Block → Stream → Stream
unfolding emit
open_block kind block s = emit (Event.content_block_start s.next_block block) (record s {
  next_block = suc s.next_block;
  current = some (record { kind = kind; index = s.next_block });
})

unfoldable pub same_kind : Kind → Kind → Bool
same_kind Kind.text Kind.text = true
same_kind Kind.thinking Kind.thinking = true
same_kind _ _ = false

unfoldable pub is_open : Kind → Option Current → Bool
unfolding same_kind
is_open kind none = false
is_open kind (some c) = same_kind kind c.kind

abbrev pub block_for : Kind → Block
block_for Kind.thinking = Block.thinking_block
block_for _ = Block.text_block

-- `if current is None or current["kind"] != kind: ...`
unfoldable pub enter : Kind → Stream → Stream
unfolding is_open stop_current open_block
enter kind s =
    if is_open kind s.current then s else open_block kind (block_for kind) (stop_current s)

abbrev pub piece_for : Kind → String → Piece
piece_for Kind.thinking t = Piece.thinking_delta t
piece_for _ t = Piece.text_delta t

-- `yield delta_event(current["index"], ...)`, always behind `enter`, so that a block is open.
unfoldable pub send : Kind → String → Stream → Stream
unfolding emit
send kind t s = elim s.current [
  | none ↦ s
  | some c ↦ emit (Event.content_block_delta c.index (piece_for kind t)) s
]

abbrev pub text_kind : Bool → Kind
text_kind in_text_thinking = if in_text_thinking then Kind.thinking else Kind.text

-- What the buffer still holds goes to its kind of block.
unfoldable pub flush_text : Stream → Stream
unfolding enter send
flush_text s = let kind = text_kind s.in_text_thinking in send kind s.text_buffer (enter kind s)
