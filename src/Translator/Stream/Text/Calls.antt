-- ===== src/Translator/Stream/Text/Calls.antt =====
-- The text of a chunk in `stream_as_anthropic` (app/translator.py) touches no tool call.
use Prim.Native.String
use custorouter.Common.{
  ℕ, zero, suc, ◌-◌, ◌≡◌, refl, ◌∙◌, String, arith, inl, inr, Option-cases, Bool, Bool-cases,
  take_text, drop_text, text_length,
}
use custorouter.Translator.Tags.{find_open, find_close}
use custorouter.Translator.Stream.Blocks.{
  Kind, Block, Stream, emit, stop_current, open_block, enter, send, block_for, flush_text,
  text_kind,
}
use custorouter.Translator.Stream.Blocks.Framed.{stop_current-keeps}
use custorouter.Translator.Stream.Text.{
  send_before, enter_tag, leave_tag, hold_back, scan_text, feed_text, margin,
}

open_stopped-calls :
    (kind : Kind) (block : Block) (s : Stream)
    → (open_block kind block (stop_current s)).tool_calls ≡ s.tool_calls
unfolding open_block emit
open_stopped-calls kind block s = (stop_current-keeps s).0

pub enter-calls : (kind : Kind) (s : Stream) → (enter kind s).tool_calls ≡ s.tool_calls
unfolding enter
enter-calls kind s = ground (arith, open_stopped-calls kind (block_for kind) s)

pub send-calls : (kind : Kind) (t : String) (s : Stream) → (send kind t s).tool_calls ≡ s.tool_calls
unfolding send emit
send-calls kind t s = ground arith

send-enter-calls :
    (kind : Kind) (t : String) (s : Stream) → (send kind t (enter kind s)).tool_calls ≡ s.tool_calls
send-enter-calls kind t s = send-calls kind t (enter kind s) ∙ enter-calls kind s

pub flush_text-calls : (s : Stream) → (flush_text s).tool_calls ≡ s.tool_calls
unfolding flush_text
flush_text-calls s = send-enter-calls (text_kind s.in_text_thinking) s.text_buffer s

send_before-calls :
    (kind : Kind) (i : ℕ) (s : Stream) → (send_before kind i s).tool_calls ≡ s.tool_calls
unfolding send_before
send_before-calls kind i s = ground (arith, send-enter-calls kind (take_text i s.text_buffer) s)

enter_tag-calls : (i n : ℕ) (s : Stream) → (enter_tag i n s).tool_calls ≡ s.tool_calls
unfolding enter_tag
enter_tag-calls i n s =
    open_stopped-calls Kind.thinking Block.thinking_block (send_before Kind.text i s)
    ∙ send_before-calls Kind.text i s

leave_tag-calls : (i n : ℕ) (s : Stream) → (leave_tag i n s).tool_calls ≡ s.tool_calls
unfolding leave_tag
leave_tag-calls i n s =
    (stop_current-keeps (send_before Kind.thinking i s)).0 ∙ send_before-calls Kind.thinking i s

hold_back-calls : (kind : Kind) (s : Stream) → (hold_back kind s).tool_calls ≡ s.tool_calls
unfolding hold_back
hold_back-calls kind s =
    let cut = text_length s.text_buffer - margin in
    let kept = record s { text_buffer = drop_text cut s.text_buffer } in
    ground (arith, send-enter-calls kind (take_text cut s.text_buffer) kept)

scan_text-calls :
    (wide : ℕ → Bool) (fuel : ℕ) (s : Stream) → (scan_text wide fuel s).tool_calls ≡ s.tool_calls
unfolding scan_text
scan_text-calls wide zero s = refl
scan_text-calls wide (suc fuel) s = elim (Bool-cases s.in_text_thinking) [
  | inr outside ↦ elim (Option-cases (find_open wide s.text_buffer)) [
    | inl plain ↦ rw (outside, scan_text, plain) (hold_back-calls Kind.text s)
    | inr ((i, n), found) ↦
        rw (outside, scan_text, found)
          (scan_text-calls wide fuel (enter_tag i n s) ∙ enter_tag-calls i n s)
  ]
  | inl inside ↦ elim (Option-cases (find_close wide s.text_buffer)) [
    | inl plain ↦ rw (inside, scan_text, plain) (hold_back-calls Kind.thinking s)
    | inr ((i, n), found) ↦
        rw (inside, scan_text, found)
          (scan_text-calls wide fuel (leave_tag i n s) ∙ leave_tag-calls i n s)
  ]
]

pub feed_text-calls :
    (wide : ℕ → Bool) (text : String) (s : Stream)
    → (feed_text wide text s).tool_calls ≡ s.tool_calls
unfolding feed_text
feed_text-calls wide text s =
    let buffer = String.◌++◌ s.text_buffer text in
    scan_text-calls wide (suc (text_length buffer)) (record s { text_buffer = buffer })
