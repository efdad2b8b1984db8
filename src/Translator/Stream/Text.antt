-- ===== src/Translator/Stream/Text.antt =====
-- The text of a chunk in `stream_as_anthropic` (app/translator.py): tags are cut out, and the last 20
-- characters are held back, since a tag may begin there.
pub mod Framed
pub mod Calls
pub mod Settled
use Prim.Native.String
use custorouter.Common.{
  ℕ, zero, suc, ◌+◌, ◌-◌, Bool, true, false, Option, none, some, String, ltb, if◌then◌else◌,
  nonempty, text_length, take_text, drop_text,
}
use custorouter.Translator.Tags.{find_open, find_close}
use custorouter.Translator.Stream.Blocks.{
  Kind, Block, Stream, stop_current, open_block, enter, send,
}

unfoldable pub send_before : Kind → ℕ → Stream → Stream
send_before kind i s =
    let before = take_text i s.text_buffer in
    if nonempty before then send kind before (enter kind s) else s

-- An opening tag of `n` characters at `i`.
unfoldable pub enter_tag : ℕ → ℕ → Stream → Stream
unfolding send_before
enter_tag i n s =
    let opened =
      open_block Kind.thinking Block.thinking_block (stop_current (send_before Kind.text i s)) in
    record opened { in_text_thinking = true; text_buffer = drop_text (i + n) s.text_buffer }

-- A closing tag of `n` characters at `i`.
unfoldable pub leave_tag : ℕ → ℕ → Stream → Stream
unfolding send_before
leave_tag i n s =
    let closed = stop_current (send_before Kind.thinking i s) in
    record closed { in_text_thinking = false; text_buffer = drop_text (i + n) s.text_buffer }

abbrev pub margin : ℕ
margin = 20

-- No complete tag: all but the last 20 characters are sent.
unfoldable pub hold_back : Kind → Stream → Stream
hold_back kind s =
    let cut = text_length s.text_buffer - margin in
    if ltb margin (text_length s.text_buffer)
    then send kind (take_text cut s.text_buffer)
        (enter kind (record s { text_buffer = drop_text cut s.text_buffer }))
    else s

module _ (wide : ℕ → Bool) where
  -- The inner `while True`, on fuel. Each round but the last one cuts a tag out of the buffer.
  unfoldable pub scan_text : ℕ → Stream → Stream
  unfolding enter_tag leave_tag hold_back
  scan_text zero s = s
  scan_text (suc fuel) s = elim s.in_text_thinking [
    | false ↦ elim (find_open wide s.text_buffer) [
      | some (i, n) ↦ scan_text fuel (enter_tag i n s)
      | none ↦ hold_back Kind.text s
    ]
    | true ↦ elim (find_close wide s.text_buffer) [
      | some (i, n) ↦ scan_text fuel (leave_tag i n s)
      | none ↦ hold_back Kind.thinking s
    ]
  ]

  unfoldable pub feed_text : String → Stream → Stream
  unfolding scan_text
  feed_text text s =
      let buffer = String.◌++◌ s.text_buffer text in
      scan_text (suc (text_length buffer)) (record s { text_buffer = buffer })
