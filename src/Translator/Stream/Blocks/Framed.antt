-- ===== src/Translator/Stream/Blocks/Framed.antt =====
-- The block helpers of `stream_as_anthropic` (app/translator.py) and the block protocol.
use custorouter.Common.{
  ℕ, suc, ◌≡◌, ◌∙◌, Option, none, some, String, List, arith, snoc, inl, inr, Option-cases, Bool,
  true, false, Bool-cases,
}
use custorouter.Translator.Stream.Blocks.{
  Kind, Current, Block, Event, Stream, ToolCall, call_at, emit, stop_current, open_block, enter,
  send, flush_text, piece_for, block_for, is_open, text_kind,
}
use custorouter.Translator.Stream.Protocol.{Phase, read_events, read_event, read_events-snoc}

abbrev pub open_index : Option Current → Option ℕ
open_index none = none
open_index (some c) = some c.index

-- The block of a call, by its index in the upstream's list.
abbrev pub block_of : ℕ → List (ℕ × ToolCall) → Option ℕ
block_of idx calls = elim (call_at idx calls) [ none ↦ none | some call ↦ some call.block_index ]

-- A tool's block that is open is the one of its call.
abbrev pub AlignedKind : Kind → ℕ → List (ℕ × ToolCall) → Type 0
AlignedKind (Kind.tool t) i calls = block_of t calls ≡ some i
AlignedKind Kind.text i calls = Unit
AlignedKind Kind.thinking i calls = Unit

abbrev pub Aligned : Option Current → List (ℕ × ToolCall) → Type 0
Aligned none calls = Unit
Aligned (some c) calls = AlignedKind c.kind c.index calls

abbrev pub Reads : Stream → Type 0
Reads s =
    read_events Phase.before s.events ≡ some (Phase.running (open_index s.current) s.next_block)

-- What was sent keeps to the protocol, and the state knows the block that is open and the next index.
abbrev pub IsFramed : Stream → Type 0
IsFramed s = Reads s × Aligned s.current s.tool_calls

-- One more event.
pub read_more :
    (s : Stream) (e : Event) (q : Phase)
    → Reads s
    → read_event (Phase.running (open_index s.current) s.next_block) e ≡ some q
    → read_events Phase.before (snoc s.events e) ≡ some q
read_more s e q h step = read_events-snoc Phase.before s.events e h ∙ step

pub stop_current-IsFramed : (s : Stream) → IsFramed s → IsFramed (stop_current s)
unfolding stop_current emit
stop_current-IsFramed s h = elim (Option-cases s.current) [
  | inl closed ↦ rw (closed, stop_current) h
  | inr (c, opened) ↦
      let stop = Event.content_block_stop c.index in
      let phase = Phase.running none s.next_block in
      rw (opened, stop_current) (read_more s stop phase h.0 (ground arith), tt)
]

pub stop_current-none : (s : Stream) → (stop_current s).current ≡ none
unfolding stop_current emit
stop_current-none s = ground arith

pub stop_current-keeps :
    (s : Stream)
    → ((stop_current s).tool_calls ≡ s.tool_calls) × ((stop_current s).text_buffer ≡ s.text_buffer)
unfolding stop_current emit
stop_current-keeps s = ground arith

text-Aligned :
    (inside : Bool) (i : ℕ) (calls : List (ℕ × ToolCall)) → AlignedKind (text_kind inside) i calls
text-Aligned true i calls = tt
text-Aligned false i calls = tt

open_block-IsFramed :
    (inside : Bool) (block : Block) (s : Stream)
    → IsFramed s
    → s.current ≡ none
    → IsFramed (open_block (text_kind inside) block s)
unfolding open_block emit
open_block-IsFramed inside block s h closed = (
  read_more s (Event.content_block_start s.next_block block)
      (Phase.running (some s.next_block) (suc s.next_block)) h.0 (ground arith),
  text-Aligned inside s.next_block s.tool_calls,
)

pub open_stopped-IsFramed :
    (inside : Bool) (block : Block) (s : Stream)
    → IsFramed s
    → IsFramed (open_block (text_kind inside) block (stop_current s))
open_stopped-IsFramed inside block s h =
    open_block-IsFramed inside block (stop_current s) (stop_current-IsFramed s h)
      (stop_current-none s)

pub enter-IsFramed :
    (inside : Bool) (s : Stream) → IsFramed s → IsFramed (enter (text_kind inside) s)
unfolding enter
enter-IsFramed inside s h = elim (Bool-cases (is_open (text_kind inside) s.current)) [
  | inl there ↦ rw there h
  | inr other ↦ rw other (open_stopped-IsFramed inside (block_for (text_kind inside)) s h)
]

pub send-IsFramed : (kind : Kind) (t : String) (s : Stream) → IsFramed s → IsFramed (send kind t s)
unfolding send emit
send-IsFramed kind t s h = elim (Option-cases s.current) [
  | inl closed ↦ rw (closed, send) h
  | inr (c, opened) ↦
      let delta = Event.content_block_delta c.index (piece_for kind t) in
      let phase = Phase.running (some c.index) s.next_block in
      rw (opened, send) (read_more s delta phase h.0 (ground arith) ∙ ground arith, h.1)
]

pub send-enter-IsFramed :
    (inside : Bool) (t : String) (s : Stream)
    → IsFramed s
    → IsFramed (send (text_kind inside) t (enter (text_kind inside) s))
send-enter-IsFramed inside t s h =
    send-IsFramed (text_kind inside) t (enter (text_kind inside) s) (enter-IsFramed inside s h)

pub flush_text-IsFramed : (s : Stream) → IsFramed s → IsFramed (flush_text s)
unfolding flush_text
flush_text-IsFramed s h = send-enter-IsFramed s.in_text_thinking s.text_buffer s h
