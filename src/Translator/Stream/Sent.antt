-- ===== src/Translator/Stream/Sent.antt =====
-- The text that the events of a stream carry, and how the helpers of `stream_as_anthropic`
-- (app/translator.py) add to it.
use Prim.Native.String
use text.Mathlib.TextLemmas.{nil-append, append-nil, append_assoc}
use custorouter.Common.{
  ℕ, ◌≡◌, refl, ◌∙◌, sym, ap, some, String, List, [], ◌∷◌, arith, snoc, inl, inr, Option-cases,
  Bool-cases, true, false, if◌then◌else◌, nonempty, or_else,
}
use custorouter.Translator.Stream.Blocks.{
  Kind, Current, Block, Event, Piece, Stream, call_at, emit, stop_current, open_block, enter, send,
  is_open, block_for,
}
use custorouter.Translator.Stream.Tools.{
  ToolDelta, index_of, new_call, begin_tool, send_arguments, needs_new_block, tool_delta,
  tool_deltas,
}

abbrev pub event_text : Event → String
event_text (Event.content_block_delta _ (Piece.text_delta t)) = t
event_text _ = ""

-- The texts of the `text_delta` events, one behind the other.
abbrev pub sent_text : List Event → String
sent_text [] = ""
sent_text (e ∷ es) = String.◌++◌ (event_text e) (sent_text es)

pub sent_text-snoc :
    (es : List Event) (e : Event)
    → sent_text (snoc es e) ≡ String.◌++◌ (sent_text es) (event_text e)
sent_text-snoc [] e = append-nil (event_text e) ∙ sym (nil-append (event_text e))
sent_text-snoc (x ∷ es) e =
    ap (String.◌++◌ (event_text x)) (sent_text-snoc es e)
    ∙ sym (append_assoc (event_text x) (sent_text es) (event_text e))

-- Nothing of the text is sent, buffered or looked at in another way.
abbrev pub Kept : Stream → Stream → Type 0
Kept s t =
    (sent_text t.events ≡ sent_text s.events)
    × (t.text_buffer ≡ s.text_buffer)
    × (t.in_text_thinking ≡ s.in_text_thinking)

pub Kept-trans : (s t u : Stream) → Kept s t → Kept t u → Kept s u
Kept-trans s t u h k = (k.0 ∙ h.0, k.1 ∙ h.1, k.2 ∙ h.2)

-- An event without text.
pub silent :
    (es : List Event) (e : Event) → event_text e ≡ "" → sent_text (snoc es e) ≡ sent_text es
silent es e h = sent_text-snoc es e ∙ ap (String.◌++◌ (sent_text es)) h ∙ append-nil (sent_text es)

pub stop_current-Kept : (s : Stream) → Kept s (stop_current s)
unfolding stop_current emit
stop_current-Kept s = elim (Option-cases s.current) [
  | inl closed ↦ rw (closed, stop_current) (refl, refl, refl)
  | inr (c, opened) ↦
      rw (opened, stop_current)
        (silent s.events (Event.content_block_stop c.index) refl, refl, refl)
]

pub open_block-Kept : (kind : Kind) (block : Block) (s : Stream) → Kept s (open_block kind block s)
unfolding open_block emit
open_block-Kept kind block s =
    (silent s.events (Event.content_block_start s.next_block block) refl, refl, refl)

pub enter-Kept : (kind : Kind) (s : Stream) → Kept s (enter kind s)
unfolding enter
enter-Kept kind s = elim (Bool-cases (is_open kind s.current)) [
  | inl there ↦ rw there (refl, refl, refl)
  | inr other ↦
      let t = stop_current s in
      rw other (
        Kept-trans s t (open_block kind (block_for kind) t) (stop_current-Kept s)
          (open_block-Kept kind (block_for kind) t))
]

-- Behind `enter` a block is open.
enter_opens : (kind : Kind) (s : Stream) → (c : Current) × ((enter kind s).current ≡ some c)
unfolding enter open_block emit is_open
enter_opens kind s = elim (Option-cases s.current) [
  | inl closed ↦ (record { kind = kind; index = (stop_current s).next_block }, ground arith)
  | inr (c, opened) ↦ elim (Bool-cases (is_open kind s.current)) [
    | inl there ↦ (c, rw there opened)
    | inr other ↦ (record { kind = kind; index = (stop_current s).next_block }, rw other refl)
  ]
]

send-text :
    (t : String) (s : Stream) {c : Current}
    → s.current ≡ some c
    → sent_text (send Kind.text t s).events ≡ String.◌++◌ (sent_text s.events) t
unfolding send emit
send-text t s {c} opened =
    rw (opened, send)
      (sent_text-snoc s.events (Event.content_block_delta c.index (Piece.text_delta t)))

pub send-enter-text :
    (t : String) (s : Stream)
    → sent_text (send Kind.text t (enter Kind.text s)).events ≡ String.◌++◌ (sent_text s.events) t
send-enter-text t s =
    let (c, opened) = enter_opens Kind.text s in
    send-text t (enter Kind.text s) opened ∙ ap (λ x. String.◌++◌ x t) (enter-Kept Kind.text s).0

pub send-Kept : (t : String) (s : Stream) → Kept s (send Kind.thinking t s)
unfolding send emit
send-Kept t s = elim (Option-cases s.current) [
  | inl closed ↦ rw (closed, send) (refl, refl, refl)
  | inr (c, opened) ↦
      rw (opened, send)
        (
          silent s.events (Event.content_block_delta c.index (Piece.thinking_delta t)) refl,
          refl,
          refl,
        )
]

send_arguments-Kept : (d : ToolDelta) (s : Stream) → Kept s (send_arguments d s)
unfolding send_arguments emit
send_arguments-Kept d s = elim (Bool-cases (nonempty (or_else d.arguments ""))) [
  | inr nothing ↦ rw nothing (refl, refl, refl)
  | inl args ↦ elim (Option-cases (call_at (index_of d) s.tool_calls)) [
    | inl unknown ↦ rw (args, unknown) (refl, refl, refl)
    | inr (call, found) ↦ rw (args, found) (silent s.events _ refl, refl, refl)
  ]
]

module _ (call_id : ℕ → String) where
  begin_tool-Kept : (d : ToolDelta) (s : Stream) → Kept s (begin_tool call_id d s)
  unfolding begin_tool new_call emit
  begin_tool-Kept d s = elim (Option-cases (call_at (index_of d) s.tool_calls)) [
    | inl fresh ↦ rw (fresh, begin_tool) (silent s.events _ refl, refl, refl)
    | inr (call, found) ↦ rw (found, begin_tool) (refl, refl, refl)
  ]

  tool_delta-Kept : (d : ToolDelta) (s : Stream) → Kept s (tool_delta call_id d s)
  unfolding tool_delta
  tool_delta-Kept d s =
      let ready = if needs_new_block d s then begin_tool call_id d (stop_current s) else s in
      Kept-trans s ready (send_arguments d ready)
        (elim (needs_new_block d s)
          as (λ b. Kept s (if b then begin_tool call_id d (stop_current s) else s)) [
            | true ↦
                Kept-trans s (stop_current s) (begin_tool call_id d (stop_current s))
                  (stop_current-Kept s) (begin_tool-Kept d (stop_current s))
            | false ↦ (refl, refl, refl)
          ])
        (send_arguments-Kept d ready)

  pub tool_deltas-Kept : (ds : List ToolDelta) (s : Stream) → Kept s (tool_deltas call_id ds s)
  unfolding tool_deltas
  tool_deltas-Kept [] s = (refl, refl, refl)
  tool_deltas-Kept (d ∷ ds) s =
      Kept-trans s (tool_delta call_id d s) (tool_deltas call_id ds (tool_delta call_id d s))
        (tool_delta-Kept d s) (tool_deltas-Kept ds (tool_delta call_id d s))
