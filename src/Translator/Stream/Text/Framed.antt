-- ===== src/Translator/Stream/Text/Framed.antt =====
-- The text of a chunk in `stream_as_anthropic` (app/translator.py) keeps to the block protocol.
use Prim.Native.String
use custorouter.Common.{
  ℕ, zero, suc, ◌-◌, String, inl, inr, Option-cases, true, false, Bool, Bool-cases, nonempty,
  take_text, drop_text, text_length, ltb,
}
use custorouter.Translator.Tags.{find_open, find_close}
use custorouter.Translator.Stream.Blocks.{Kind, Block, Stream, text_kind}
use custorouter.Translator.Stream.Blocks.Framed.{
  IsFramed, stop_current-IsFramed, open_stopped-IsFramed, send-enter-IsFramed,
}
use custorouter.Translator.Stream.Text.{
  send_before, enter_tag, leave_tag, hold_back, scan_text, feed_text, margin,
}

send_before-IsFramed :
    (inside : Bool) (i : ℕ) (s : Stream)
    → IsFramed s
    → IsFramed (send_before (text_kind inside) i s)
unfolding send_before
send_before-IsFramed inside i s h = elim (Bool-cases (nonempty (take_text i s.text_buffer))) [
  | inl some_text ↦ rw some_text (send-enter-IsFramed inside (take_text i s.text_buffer) s h)
  | inr empty ↦ rw empty h
]

enter_tag-IsFramed : (i n : ℕ) (s : Stream) → IsFramed s → IsFramed (enter_tag i n s)
unfolding enter_tag
enter_tag-IsFramed i n s h =
    open_stopped-IsFramed true Block.thinking_block (send_before Kind.text i s)
      (send_before-IsFramed false i s h)

leave_tag-IsFramed : (i n : ℕ) (s : Stream) → IsFramed s → IsFramed (leave_tag i n s)
unfolding leave_tag
leave_tag-IsFramed i n s h =
    stop_current-IsFramed (send_before Kind.thinking i s) (send_before-IsFramed true i s h)

hold_back-IsFramed :
    (inside : Bool) (s : Stream) → IsFramed s → IsFramed (hold_back (text_kind inside) s)
unfolding hold_back
hold_back-IsFramed inside s h =
    let cut = text_length s.text_buffer - margin in
    let kept = record s { text_buffer = drop_text cut s.text_buffer } in
    elim (Bool-cases (ltb margin (text_length s.text_buffer))) [
      | inl long ↦ rw long (send-enter-IsFramed inside (take_text cut s.text_buffer) kept h)
      | inr short ↦ rw short h
    ]

scan_text-IsFramed :
    (wide : ℕ → Bool) (fuel : ℕ) (s : Stream) → IsFramed s → IsFramed (scan_text wide fuel s)
unfolding scan_text
scan_text-IsFramed wide zero s h = h
scan_text-IsFramed wide (suc fuel) s h = elim (Bool-cases s.in_text_thinking) [
  | inr outside ↦ elim (Option-cases (find_open wide s.text_buffer)) [
    | inl plain ↦ rw (outside, scan_text, plain) (hold_back-IsFramed false s h)
    | inr ((i, n), found) ↦
        rw (outside, scan_text, found)
          (scan_text-IsFramed wide fuel (enter_tag i n s) (enter_tag-IsFramed i n s h))
  ]
  | inl inside ↦ elim (Option-cases (find_close wide s.text_buffer)) [
    | inl plain ↦ rw (inside, scan_text, plain) (hold_back-IsFramed true s h)
    | inr ((i, n), found) ↦
        rw (inside, scan_text, found)
          (scan_text-IsFramed wide fuel (leave_tag i n s) (leave_tag-IsFramed i n s h))
  ]
]

pub feed_text-IsFramed :
    (wide : ℕ → Bool) (text : String) (s : Stream) → IsFramed s → IsFramed (feed_text wide text s)
unfolding feed_text
feed_text-IsFramed wide text s h =
    let buffer = String.◌++◌ s.text_buffer text in
    scan_text-IsFramed wide (suc (text_length buffer)) (record s { text_buffer = buffer }) h
