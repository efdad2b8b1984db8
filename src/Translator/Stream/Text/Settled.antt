-- ===== src/Translator/Stream/Text/Settled.antt =====
-- The inner loop on the text of a chunk ends (`stream_as_anthropic`, app/translator.py).
use Prim.Native.String
use custorouter.Common.{
  ℕ, zero, suc, ◌+◌, ◌-◌, ◌≤◌, ◌<◌, ◌≡◌, refl, ◌∙◌, ap, ap₂, if◌then◌else◌, Option, none, some,
  String, arith, inl, inr, Option-cases, Bool, Bool-cases, take_text, drop_text, text_length, ltb,
  ltb→lt,
}
use custorouter.Translator.Tags.{find_open, find_close, search_tag}
use custorouter.Translator.Tags.Laws.{search_tag_cuts, search_tag-tail}
use custorouter.Translator.Stream.Blocks.{Kind, Stream, emit, stop_current, open_block, enter, send}
use custorouter.Translator.Stream.Text.{
  enter_tag, leave_tag, hold_back, scan_text, feed_text, margin,
}

pub length-drop_text : (n : ℕ) (s : String) → text_length (drop_text n s) ≡ text_length s - n
unfolding drop_text
length-drop_text zero s = omega arith
length-drop_text (suc n) String.[] = omega arith
length-drop_text (suc n) (String.◌∷◌ c s) = omega (arith, length-drop_text n s)

enter-buffer : (kind : Kind) (s : Stream) → (enter kind s).text_buffer ≡ s.text_buffer
unfolding enter stop_current open_block emit
enter-buffer kind s = ground arith

pub send-buffer :
    (kind : Kind) (t : String) (s : Stream) → (send kind t s).text_buffer ≡ s.text_buffer
unfolding send emit
send-buffer kind t s = ground arith

pub search_tag-drop :
    (wide : ℕ → Bool) (start : String) (n : ℕ) (s : String)
    → search_tag wide start s ≡ none
    → search_tag wide start (drop_text n s) ≡ none
unfolding search_tag drop_text
search_tag-drop wide start zero s h = h
search_tag-drop wide start (suc n) String.[] h = refl
search_tag-drop wide start (suc n) (String.◌∷◌ c s) h =
    search_tag-drop wide start n s (search_tag-tail wide start c s h)

enter-inside : (kind : Kind) (s : Stream) → (enter kind s).in_text_thinking ≡ s.in_text_thinking
unfolding enter stop_current open_block emit
enter-inside kind s = ground arith

pub send-inside :
    (kind : Kind) (t : String) (s : Stream) → (send kind t s).in_text_thinking ≡ s.in_text_thinking
unfolding send emit
send-inside kind t s = ground arith

-- The complete tag that the loop looks for next.
abbrev pub next_tag : (ℕ → Bool) → Stream → Option (ℕ × ℕ)
next_tag wide s = search_tag wide (if s.in_text_thinking then "</" else "<") s.text_buffer

-- At most 20 characters wait, and they hold no complete tag.
abbrev pub IsSettled : (ℕ → Bool) → Stream → Type 0
IsSettled wide s = (text_length s.text_buffer ≤ margin) × (next_tag wide s ≡ none)

hold_back-IsSettled :
    (wide : ℕ → Bool) (kind : Kind) (s : Stream)
    → next_tag wide s ≡ none
    → IsSettled wide (hold_back kind s)
unfolding hold_back
hold_back-IsSettled wide kind s plain =
    let size = text_length s.text_buffer in
    let cut = size - margin in
    let start = if s.in_text_thinking then "</" else "<" in
    let kept = record s { text_buffer = drop_text cut s.text_buffer } in
    let entered = enter kind kept in
    let before = take_text cut s.text_buffer in
    let buffer = send-buffer kind before entered ∙ enter-buffer kind kept in
    let inside = send-inside kind before entered ∙ enter-inside kind kept in
    elim (Bool-cases (ltb margin size)) [
      | inl long ↦ rw long (
        omega (
          arith,
          ap text_length buffer,
          length-drop_text cut s.text_buffer,
          ltb→lt margin size long,
        ),
        ap₂ (λ b t. search_tag wide (if b then "</" else "<") t) inside buffer
            ∙ search_tag-drop wide start cut s.text_buffer plain,
      )
      | inr short ↦ rw short (ground arith, plain)
    ]

cut_below :
    (wide : ℕ → Bool) (start : String) (s : Stream) (i n fuel : ℕ)
    → 0 < text_length start
    → search_tag wide start s.text_buffer ≡ some (i, n)
    → text_length s.text_buffer < suc fuel
    → text_length (drop_text (i + n) s.text_buffer) < fuel
cut_below wide start s i n fuel pos found h = omega (
  arith,
  length-drop_text (i + n) s.text_buffer,
  search_tag_cuts wide start s.text_buffer i n pos found,
)

-- Each tag that is cut out makes the buffer shorter, so fuel beyond its length lets the loop end by
-- its `break`.
scan_text-IsSettled :
    (wide : ℕ → Bool) (fuel : ℕ) (s : Stream)
    → text_length s.text_buffer < fuel
    → IsSettled wide (scan_text wide fuel s)
unfolding scan_text find_open find_close enter_tag leave_tag
scan_text-IsSettled wide zero s h = elim h [ ]
scan_text-IsSettled wide (suc fuel) s h = elim (Bool-cases s.in_text_thinking) [
  | inr outside ↦ elim (Option-cases (find_open wide s.text_buffer)) [
    | inl plain ↦
        rw (outside, scan_text, plain) (hold_back-IsSettled wide Kind.text s (rw outside plain))
    | inr ((i, n), found) ↦
        rw (outside, scan_text, found)
          (scan_text-IsSettled wide fuel (enter_tag i n s)
            (cut_below wide "<" s i n fuel (ground arith) found h))
  ]
  | inl inside ↦ elim (Option-cases (find_close wide s.text_buffer)) [
    | inl plain ↦
        rw (inside, scan_text, plain) (hold_back-IsSettled wide Kind.thinking s (rw inside plain))
    | inr ((i, n), found) ↦
        rw (inside, scan_text, found)
          (scan_text-IsSettled wide fuel (leave_tag i n s)
            (cut_below wide "</" s i n fuel (ground arith) found h))
  ]
]

-- The inner loop on a chunk's text always comes to its end, whatever the buffer and the text hold:
-- behind it, at most 20 characters wait in the buffer, and the buffer holds no complete tag of the kind
-- that is looked for next, a closing one within thinking and an opening one elsewhere.
pub feed_text-IsSettled :
    (wide : ℕ → Bool) (text : String) (s : Stream) → IsSettled wide (feed_text wide text s)
unfolding feed_text
feed_text-IsSettled wide text s =
    let buffer = String.◌++◌ s.text_buffer text in
    scan_text-IsSettled wide (suc (text_length buffer)) (record s { text_buffer = buffer })
      (omega arith)
