-- ===== src/Translator/Stream/Tools.antt =====
-- The tool calls of a chunk in `stream_as_anthropic` (app/translator.py).
pub mod Framed
use custorouter.Common.{
  ℕ, suc, Bool, true, false, Option, none, some, String, List, [], ◌∷◌, ◌==◌, or_else, snoc, ◌&&◌,
  if◌then◌else◌, nonempty, is_empty, not, ◌||◌, is_some,
}
use custorouter.Translator.Stream.Blocks.{
  Kind, Current, Block, Event, Piece, ToolCall, Stream, call_at, emit, stop_current, flush_text,
}

-- A key that is missing is none.
pub record ToolDelta : Type 0 where
  pub index : Option ℕ
  pub id : Option String
  pub name : Option String
  pub arguments : Option String

unfoldable pub is_tool : ℕ → Kind → Bool
is_tool idx (Kind.tool t) = t == idx
is_tool idx Kind.text = false
is_tool idx Kind.thinking = false

-- `current.get("tool_idx") == idx`
unfoldable pub is_current_tool : ℕ → Option Current → Bool
unfolding is_tool
is_current_tool idx none = false
is_current_tool idx (some c) = is_tool idx c.kind

unfoldable pub flush_before_tools : List ToolDelta → Stream → Stream
flush_before_tools deltas s =
    if not (is_empty deltas) && nonempty s.text_buffer
    then (let t = flush_text s in record t { text_buffer = ""; in_text_thinking = false })
    else s

abbrev pub index_of : ToolDelta → ℕ
index_of d = or_else d.index 0

unfoldable pub send_arguments : ToolDelta → Stream → Stream
unfolding call_at
send_arguments d s =
    let args = or_else d.arguments "" in
    if nonempty args
    then elim (call_at (index_of d) s.tool_calls) [
      | none ↦ s
      | some call ↦
          emit (Event.content_block_delta call.block_index (Piece.input_json_delta args))
            (record s { output_tokens = suc s.output_tokens })
    ]
    else s

unfoldable pub needs_new_block : ToolDelta → Stream → Bool
unfolding call_at is_current_tool
needs_new_block d s =
    not (is_some (call_at (index_of d) s.tool_calls))
    || not (is_current_tool (index_of d) s.current)

module _ (call_id : ℕ → String) where
  unfoldable pub tool_call_of : ToolDelta → ℕ → ToolCall
  tool_call_of d i = record {
    id = or_else d.id (call_id i);
    name = or_else d.name "";
    block_index = i;
  }

  unfoldable pub new_call : ToolDelta → Stream → Stream
  unfolding tool_call_of
  new_call d s =
      let call = tool_call_of d s.next_block in
      emit (Event.content_block_start s.next_block (Block.tool_use call.id call.name)) (record s {
        next_block = suc s.next_block;
        tool_calls = snoc s.tool_calls (index_of d, call);
        current = some (record { kind = Kind.tool (index_of d); index = s.next_block });
      })

  -- A block of its own, or the return to the block of a call that was stopped before.
  unfoldable pub begin_tool : ToolDelta → Stream → Stream
  unfolding new_call call_at
  begin_tool d s = elim (call_at (index_of d) s.tool_calls) [
    | none ↦ new_call d s
    | some call ↦ record s {
      current = some (record { kind = Kind.tool (index_of d); index = call.block_index });
    }
  ]

  unfoldable pub tool_delta : ToolDelta → Stream → Stream
  unfolding begin_tool send_arguments needs_new_block
  tool_delta d s =
      send_arguments d (if needs_new_block d s then begin_tool d (stop_current s) else s)

  unfoldable pub tool_deltas : List ToolDelta → Stream → Stream
  unfolding tool_delta
  tool_deltas [] s = s
  tool_deltas (d ∷ ds) s = tool_deltas ds (tool_delta d s)
