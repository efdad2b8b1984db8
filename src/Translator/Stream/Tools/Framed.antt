-- ===== src/Translator/Stream/Tools/Framed.antt =====
-- A tool call in `stream_as_anthropic` (app/translator.py) keeps to the block protocol, unless its
-- block was stopped before.
use custorouter.Common.{
  ℕ, suc, ◌≡◌, refl, ◌∙◌, sym, ap, subst, Option, none, some, String, List, [], ◌∷◌, arith, inl,
  inr, ◌⊎◌, Option-cases, Bool, true, false, Bool-cases, ◌==◌, ◌||◌, or_else, nonempty, is_some,
  snoc, if◌then◌else◌,
}
use custorouter.Translator.Stream.Blocks.{
  Kind, Current, Block, Event, Piece, Stream, ToolCall, call_at, emit, stop_current,
}
use custorouter.Translator.Stream.Blocks.Framed.{
  IsFramed, AlignedKind, Aligned, block_of, read_more, stop_current-IsFramed, stop_current-none,
  stop_current-keeps,
}
use custorouter.Translator.Stream.Protocol.{Phase}
use custorouter.Translator.Stream.Tools.{
  ToolDelta, index_of, is_tool, is_current_tool, new_call, tool_call_of, begin_tool, send_arguments,
  tool_delta, needs_new_block,
}

is_tool-block :
    (idx : ℕ) (k : Kind) (i : ℕ) (calls : List (ℕ × ToolCall))
    → AlignedKind k i calls
    → is_tool idx k ≡ true
    → block_of idx calls ≡ some i
unfolding is_tool
is_tool-block idx (Kind.tool t) i calls h e = let same : t ≡ idx = ground arith in rw (← same) h
is_tool-block idx Kind.text i calls h e = cc
is_tool-block idx Kind.thinking i calls h e = cc

-- The call of the block that is open.
current_call :
    (idx : ℕ) (o : Option Current) (calls : List (ℕ × ToolCall))
    → Aligned o calls
    → is_current_tool idx o ≡ true
    → (c : Current) × (call : ToolCall) × (o ≡ some c)
      × (call_at idx calls ≡ some call)
      × (call.block_index ≡ c.index)
unfolding is_current_tool
current_call idx none calls h e = absurd (ground arith)
current_call idx (some c) calls h e =
    let block = is_tool-block idx c.kind c.index calls h e in
    elim (Option-cases (call_at idx calls)) [
      | inl missing ↦ absurd (ground arith)
      | inr (call, found) ↦ (c, call, refl, found, ground arith)
    ]

call_at-snoc :
    (t idx : ℕ) (call : ToolCall) (calls : List (ℕ × ToolCall))
    → is_some (call_at t (snoc calls (idx, call))) ≡ (is_some (call_at t calls) || idx == t)
unfolding call_at
call_at-snoc t idx call [] = ground arith
call_at-snoc t idx call ((i, c) ∷ calls) = ground (arith, call_at-snoc t idx call calls)

call_at-new :
    (idx : ℕ) (call : ToolCall) (calls : List (ℕ × ToolCall))
    → call_at idx calls ≡ none
    → call_at idx (snoc calls (idx, call)) ≡ some call
unfolding call_at
call_at-new idx call [] h = ground arith
call_at-new idx call ((i, c) ∷ calls) h = ground (arith, call_at-new idx call calls)

send_arguments-IsFramed :
    (d : ToolDelta) (s : Stream)
    → IsFramed s
    → is_current_tool (index_of d) s.current ≡ true
    → IsFramed (send_arguments d s)
      × ((send_arguments d s).current ≡ s.current)
      × ((send_arguments d s).text_buffer ≡ s.text_buffer)
      × ((send_arguments d s).tool_calls ≡ s.tool_calls)
unfolding send_arguments emit
send_arguments-IsFramed d s h e =
    let args = or_else d.arguments "" in
    let (c, call, opened, found, block) = current_call (index_of d) s.current s.tool_calls h.1 e in
    let delta = Event.content_block_delta call.block_index (Piece.input_json_delta args) in
    let phase = Phase.running (some c.index) s.next_block in
    elim (Bool-cases (nonempty args)) [
      | inr nothing ↦ rw nothing (h, refl, refl, refl)
      | inl sent ↦
          rw (sent, found)
            ((read_more s delta phase h.0 (ground arith) ∙ ground arith, h.1), refl, refl, refl)
    ]

-- What holds behind the choice of a block: it is the call's own, and the calls are those from before
-- and this one.
abbrev pub Begun : ℕ → Stream → Stream → Type 0
Begun idx s t =
    IsFramed t
    × (is_current_tool idx t.current ≡ true)
    × (t.text_buffer ≡ s.text_buffer)
    × ((j : ℕ) → is_some (call_at j t.tool_calls) ≡ (is_some (call_at j s.tool_calls) || idx == j))

send_arguments-Begun :
    (d : ToolDelta) (s t : Stream)
    → Begun (index_of d) s t
    → Begun (index_of d) s (send_arguments d t)
send_arguments-Begun d s t (framed, current, kept, known) =
    let (sent, still, same, calls) = send_arguments-IsFramed d t framed current in
    (sent, rw still current, same ∙ kept, λ j. rw calls (known j))

block_of-call :
    (idx : ℕ) (calls : List (ℕ × ToolCall)) {call : ToolCall}
    → call_at idx calls ≡ some call
    → block_of idx calls ≡ some call.block_index
block_of-call idx calls e = ground arith

known_call :
    (idx j : ℕ) (calls : List (ℕ × ToolCall)) {call : ToolCall}
    → call_at idx calls ≡ some call
    → is_some (call_at j calls) ≡ (is_some (call_at j calls) || idx == j)
known_call idx j calls {call} found = elim (Bool-cases (idx == j)) [
  | inl same ↦
      let e : idx ≡ j = ground arith in
      let at : call_at j calls ≡ some call = rw (← e) found in ground arith
  | inr other ↦ ground arith
]

module _ (call_id : ℕ → String) (d : ToolDelta) where
  new_call-Begun :
      (s : Stream)
      → IsFramed s
      → s.current ≡ none
      → call_at (index_of d) s.tool_calls ≡ none
      → Begun (index_of d) s (new_call call_id d s)
  unfolding new_call emit is_current_tool is_tool
  new_call-Begun s h closed fresh =
      let idx = index_of d in
      let call = tool_call_of call_id d s.next_block in
      let start = Event.content_block_start s.next_block (Block.tool_use call.id call.name) in
      let phase = Phase.running (some s.next_block) (suc s.next_block) in
      (
        (
          read_more s start phase h.0 (ground arith),
          block_of-call idx (snoc s.tool_calls (idx, call))
              (call_at-new idx call s.tool_calls fresh),
        ),
        ground arith,
        refl,
        λ j. call_at-snoc j idx call s.tool_calls,
      )

  begin_tool-new :
      (t : Stream)
      → call_at (index_of d) t.tool_calls ≡ none
      → begin_tool call_id d t ≡ new_call call_id d t
  unfolding begin_tool
  begin_tool-new t unknown = rw (unknown, begin_tool) refl

  begin_tool-Begun :
      (s : Stream)
      → IsFramed s
      → call_at (index_of d) s.tool_calls ≡ none
      → Begun (index_of d) s (begin_tool call_id d (stop_current s))
  begin_tool-Begun s h fresh =
      let (calls, buffer) = stop_current-keeps s in
      let t = stop_current s in
      let unknown : call_at (index_of d) t.tool_calls ≡ none = rw calls fresh in
      let (framed, opened, kept, known) =
        new_call-Begun t (stop_current-IsFramed s h) (stop_current-none s) unknown in
      subst (Begun (index_of d) s) (sym (begin_tool-new t unknown)) (
        framed,
        opened,
        kept ∙ buffer,
        λ j. known j ∙ ap (λ l. is_some (call_at j l) || index_of d == j) calls,
      )

  tool_delta-by :
      (s : Stream) (b : Bool)
      → needs_new_block d s ≡ b
      → tool_delta call_id d s
        ≡ send_arguments d (if b then begin_tool call_id d (stop_current s) else s)
  unfolding tool_delta
  tool_delta-by s b e =
      ap (λ c. send_arguments d (if c then begin_tool call_id d (stop_current s) else s)) e

  tool_delta-new :
      (s : Stream)
      → call_at (index_of d) s.tool_calls ≡ none
      → tool_delta call_id d s ≡ send_arguments d (begin_tool call_id d (stop_current s))
  unfolding needs_new_block
  tool_delta-new s fresh = tool_delta-by s true (ground arith)

  tool_delta-current :
      (s : Stream) {call : ToolCall}
      → is_current_tool (index_of d) s.current ≡ true
      → call_at (index_of d) s.tool_calls ≡ some call
      → tool_delta call_id d s ≡ send_arguments d s
  unfolding needs_new_block
  tool_delta-current s current found = tool_delta-by s false (ground arith)

  pub tool_delta-Begun :
      (s : Stream)
      → IsFramed s
      → (is_current_tool (index_of d) s.current ≡ true) ⊎ (call_at (index_of d) s.tool_calls ≡ none)
      → Begun (index_of d) s (tool_delta call_id d s)
  tool_delta-Begun s h (inr fresh) = subst (Begun (index_of d) s) (sym (tool_delta-new s fresh)) (
      send_arguments-Begun d s (begin_tool call_id d (stop_current s)) (begin_tool-Begun s h fresh))
  tool_delta-Begun s h (inl current) =
      let (c, call, opened, found, block) =
        current_call (index_of d) s.current s.tool_calls h.1 current in
      subst (Begun (index_of d) s) (sym (tool_delta-current s current found)) (
        send_arguments-Begun d s s
          (h, current, refl, λ j. known_call (index_of d) j s.tool_calls found))
