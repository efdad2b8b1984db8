-- ===== src/Translator/Stream/Received.antt =====
-- Plain text reaches the client whole and in order (`stream_as_anthropic`, app/translator.py).
use Prim.Native.String
use text.Mathlib.TextLemmas.{nil-append, cons-append, append-nil, append_assoc}
use custorouter.Common.{
  ℕ, zero, suc, ◌-◌, ◌≡◌, refl, ◌∙◌, sym, ap, ap₂, subst, Option, none, some, String, List, [], ◌∷◌,
  arith, snoc, inl, inr, Bool, Bool-cases, true, false, ◌&&◌, not, ◌==◌, nonempty, or_else,
  take_text, drop_text, text_length, ltb, is_empty,
}
use custorouter.Translator.Tags.Laws.{is_plain, find_open-plain}
use custorouter.Translator.Stream.{
  Chunk, count_tokens, note_finish, feed_reasoning, feed_content, feed_chunk, feed_chunks,
  finish_stream, relay_chunks,
}
use custorouter.Translator.Stream.Blocks.{
  Kind, Event, Stream, emit, stop_current, enter, send, new_stream, flush_text, text_kind,
}
use custorouter.Translator.Stream.Text.{hold_back, scan_text, feed_text, margin}
use custorouter.Translator.Stream.Text.Settled.{send-buffer, send-inside}
use custorouter.Translator.Stream.Tools.{ToolDelta, tool_deltas, flush_before_tools}
use custorouter.Translator.Stream.Sent.{
  sent_text, Kept, enter-Kept, send-Kept, send-enter-text, stop_current-Kept, tool_deltas-Kept,
  silent,
}

take_drop_text : (n : ℕ) (s : String) → String.◌++◌ (take_text n s) (drop_text n s) ≡ s
unfolding take_text drop_text
take_drop_text zero s = nil-append s
take_drop_text (suc n) String.[] = nil-append ""
take_drop_text (suc n) (String.◌∷◌ c s) =
    cons-append c (take_text n s) (drop_text n s) ∙ ap (String.◌∷◌ c) (take_drop_text n s)

is_plain-drop : (n : ℕ) (s : String) → is_plain s ≡ true → is_plain (drop_text n s) ≡ true
unfolding drop_text
is_plain-drop zero s h = h
is_plain-drop (suc n) String.[] h = refl
is_plain-drop (suc n) (String.◌∷◌ c s) h = is_plain-drop n s (ground arith)

is_plain-append :
    (s t : String) → is_plain s ≡ true → is_plain t ≡ true → is_plain (String.◌++◌ s t) ≡ true
is_plain-append String.[] t h k = ap is_plain (nil-append t) ∙ k
is_plain-append (String.◌∷◌ c s) t h k =
    ap is_plain (cons-append c s t) ∙ ground (arith, is_plain-append s t)

-- The text so far: what was sent, and behind it what waits.
abbrev pub Received : String → Stream → Type 0
Received text s =
    (String.◌++◌ (sent_text s.events) s.text_buffer ≡ text)
    × (is_plain s.text_buffer ≡ true)
    × (s.in_text_thinking ≡ false)

Kept-Received : (text : String) (s t : Stream) → Kept s t → Received text s → Received text t
Kept-Received text s t k h = (ap₂ String.◌++◌ k.0 k.1 ∙ h.0, ap is_plain k.1 ∙ h.1, k.2 ∙ h.2)

-- A text that is sent, with what is left of the buffer.
send-Received :
    (text before rest : String) (s : Stream)
    → (String.◌++◌ (sent_text s.events) (String.◌++◌ before rest) ≡ text)
    → is_plain rest ≡ true
    → s.in_text_thinking ≡ false
    → s.text_buffer ≡ rest
    → Received text (send Kind.text before (enter Kind.text s))
send-Received text before rest s e plain outside buffer =
    let entered = enter Kind.text s in
    let kept : (send Kind.text before entered).text_buffer ≡ rest =
      send-buffer Kind.text before entered ∙ (enter-Kept Kind.text s).1 ∙ buffer in
    (
      ap₂ String.◌++◌ (send-enter-text before s) kept
          ∙ append_assoc (sent_text s.events) before rest
          ∙ e,
      ap is_plain kept ∙ plain,
      send-inside Kind.text before entered ∙ (enter-Kept Kind.text s).2 ∙ outside,
    )

hold_back-Received :
    (text : String) (s : Stream) → Received text s → Received text (hold_back Kind.text s)
unfolding hold_back
hold_back-Received text s (e, plain, outside) =
    let cut = text_length s.text_buffer - margin in
    let rest = drop_text cut s.text_buffer in
    let before = take_text cut s.text_buffer in
    elim (Bool-cases (ltb margin (text_length s.text_buffer))) [
      | inr short ↦ rw short (e, plain, outside)
      | inl long ↦ rw long (
          send-Received text before rest (record s { text_buffer = rest })
            (ap (String.◌++◌ (sent_text s.events)) (take_drop_text cut s.text_buffer) ∙ e)
            (is_plain-drop cut s.text_buffer plain) outside refl)
    ]

scan_text-plain :
    (wide : ℕ → Bool) (fuel : ℕ) (s : Stream)
    → is_plain s.text_buffer ≡ true
    → s.in_text_thinking ≡ false
    → scan_text wide (suc fuel) s ≡ hold_back Kind.text s
unfolding scan_text
scan_text-plain wide fuel s plain outside = ground (arith, find_open-plain wide s.text_buffer plain)

feed_content-Received :
    (wide : ℕ → Bool) (content : Option String) (text : String) (s : Stream)
    → is_plain (or_else content "") ≡ true
    → Received text s
    → Received (String.◌++◌ text (or_else content "")) (feed_content wide content s)
unfolding feed_content feed_text
feed_content-Received wide none text s plain h = rw (append-nil text) h
feed_content-Received wide (some String.[]) text s plain h = rw (append-nil text) h
feed_content-Received wide (some (String.◌∷◌ c rest)) text s plain (e, held, outside) =
    let more = String.◌∷◌ c rest in
    let buffer = String.◌++◌ s.text_buffer more in
    let t = record s { text_buffer = buffer } in
    let all_plain = is_plain-append s.text_buffer more held plain in
    let joined : String.◌++◌ (sent_text s.events) buffer ≡ String.◌++◌ text more =
      sym (append_assoc (sent_text s.events) s.text_buffer more) ∙ ap (λ x. String.◌++◌ x more) e in
    subst (Received (String.◌++◌ text more))
      (sym (scan_text-plain wide (text_length buffer) t all_plain outside))
      (hold_back-Received (String.◌++◌ text more) t (joined, all_plain, outside))

flush_text-sends :
    (text : String) (s : Stream) → Received text s → sent_text (flush_text s).events ≡ text
unfolding flush_text
flush_text-sends text s (e, plain, outside) =
    ap (λ b. sent_text (send (text_kind b) s.text_buffer (enter (text_kind b) s)).events) outside
    ∙ send-enter-text s.text_buffer s
    ∙ e

flush_before_tools-Received :
    (ds : List ToolDelta) (text : String) (s : Stream)
    → Received text s
    → Received text (flush_before_tools ds s)
unfolding flush_before_tools
flush_before_tools-Received ds text s h =
    elim (Bool-cases (not (is_empty ds) && nonempty s.text_buffer)) [
      | inr idle ↦ rw idle h
      | inl held ↦
          rw held
            (append-nil (sent_text (flush_text s).events) ∙ flush_text-sends text s h, refl, refl)
    ]

feed_reasoning-Received :
    (show_reasoning : Bool) (r : Option String) (text : String) (s : Stream)
    → Received text s
    → Received text (feed_reasoning show_reasoning r s)
unfolding feed_reasoning
feed_reasoning-Received show_reasoning none text s h = h
feed_reasoning-Received show_reasoning (some r) text s h =
    elim (Bool-cases (nonempty r && show_reasoning)) [
      | inr quiet ↦ rw quiet h
      | inl shown ↦
          let t = enter Kind.thinking s in
          let counted = record t { output_tokens = suc t.output_tokens } in
          rw shown (
            Kept-Received text counted (send Kind.thinking r counted) (send-Kept r counted)
              (Kept-Received text s t (enter-Kept Kind.thinking s) h))
    ]

count_tokens-Received :
    (tokens : Option ℕ) (text : String) (s : Stream)
    → Received text s
    → Received text (count_tokens tokens s)
unfolding count_tokens
count_tokens-Received none text s h = h
count_tokens-Received (some n) text s h = elim (Bool-cases (n == 0)) [
  | inl zero_tokens ↦ rw zero_tokens h
  | inr counted ↦ rw counted h
]

note_finish-Received :
    (fr : Option String) (text : String) (s : Stream)
    → Received text s
    → Received text (note_finish fr s)
unfolding note_finish
note_finish-Received none text s h = h
note_finish-Received (some fr) text s h = elim (Bool-cases (nonempty fr)) [
  | inl noted ↦ rw noted h
  | inr empty ↦ rw empty h
]

-- What the chunks carry as content.
abbrev pub content_of : Chunk → String
content_of (Chunk.usage_only _) = ""
content_of (Chunk.choice delta _ _) = or_else delta.content ""

abbrev pub contents : List Chunk → String
contents [] = ""
contents (c ∷ cs) = String.◌++◌ (content_of c) (contents cs)

abbrev pub all_plain : List Chunk → Bool
all_plain [] = true
all_plain (c ∷ cs) = is_plain (content_of c) && all_plain cs

module _ (wide : ℕ → Bool) (call_id : ℕ → String) (show_reasoning : Bool) where
  feed_chunk-Received :
      (c : Chunk) (text : String) (s : Stream)
      → is_plain (content_of c) ≡ true
      → Received text s
      → Received (String.◌++◌ text (content_of c)) (feed_chunk wide call_id show_reasoning c s)
  unfolding feed_chunk
  feed_chunk-Received (Chunk.usage_only tokens) text s plain h =
      rw (append-nil text) (count_tokens-Received tokens text s h)
  feed_chunk-Received (Chunk.choice delta fr tokens) text s plain h =
      let noted = note_finish fr s in
      let counted = count_tokens tokens noted in
      let reasoned = feed_reasoning show_reasoning delta.reasoning_content counted in
      let told = feed_content wide delta.content reasoned in
      let flushed = flush_before_tools delta.tool_calls told in
      let more = String.◌++◌ text (or_else delta.content "") in
      Kept-Received more flushed (tool_deltas call_id delta.tool_calls flushed)
        (tool_deltas-Kept call_id delta.tool_calls flushed)
        (flush_before_tools-Received delta.tool_calls more told (
          feed_content-Received wide delta.content text reasoned plain (
            feed_reasoning-Received show_reasoning delta.reasoning_content text counted
              (count_tokens-Received tokens text noted (note_finish-Received fr text s h)))))

  feed_chunks-Received :
      (cs : List Chunk) (text : String) (s : Stream)
      → all_plain cs ≡ true
      → Received text s
      → Received (String.◌++◌ text (contents cs)) (feed_chunks wide call_id show_reasoning cs s)
  unfolding feed_chunks
  feed_chunks-Received [] text s plain h = rw (append-nil text) h
  feed_chunks-Received (c ∷ cs) text s plain h =
      rw (← append_assoc text (content_of c) (contents cs)) (
        feed_chunks-Received cs (String.◌++◌ text (content_of c))
          (feed_chunk wide call_id show_reasoning c s) (ground arith)
          (feed_chunk-Received c text s (ground arith) h))

empty_text : (s : String) → nonempty s ≡ false → s ≡ ""
empty_text String.[] h = refl
empty_text (String.◌∷◌ c s) h = cc

ending-sends :
    (text reason : String) (tokens : ℕ) (s : Stream)
    → sent_text s.events ≡ text
    → sent_text
        (snoc (snoc (stop_current s).events (Event.message_delta reason tokens)) Event.message_stop)
      ≡ text
ending-sends text reason tokens s e =
    let delta = Event.message_delta reason tokens in
    let closed = (stop_current s).events in
    silent (snoc closed delta) Event.message_stop refl
    ∙ silent closed delta refl
    ∙ (stop_current-Kept s).0
    ∙ e

finish_stream-sends :
    (text : String) (s : Stream) → Received text s → sent_text (finish_stream s).events ≡ text
unfolding finish_stream emit
finish_stream-sends text s h = elim (Bool-cases (nonempty s.text_buffer)) [
  | inl held ↦ rw held (ending-sends text _ _ (flush_text s) (flush_text-sends text s h))
  | inr empty ↦
      let all_sent =
        sym (append-nil (sent_text s.events))
        ∙ ap (String.◌++◌ (sent_text s.events)) (sym (empty_text s.text_buffer empty))
        ∙ h.0 in
      rw empty (ending-sends text _ _ s all_sent)
]

pub relay_chunks-sends :
    (wide : ℕ → Bool) (call_id : ℕ → String) (show_reasoning : Bool) (msg_id model : String)
    (input_tokens : ℕ) (chunks : List Chunk)
    → all_plain chunks ≡ true
    → sent_text (relay_chunks wide call_id show_reasoning msg_id model input_tokens chunks).events
      ≡ contents chunks
unfolding relay_chunks new_stream
relay_chunks-sends wide call_id show_reasoning msg_id model input_tokens chunks plain =
    let s = new_stream msg_id model input_tokens in
    let start : Received "" s = (refl, refl, refl) in
    finish_stream-sends (String.◌++◌ "" (contents chunks))
      (feed_chunks wide call_id show_reasoning chunks s)
      (feed_chunks-Received wide call_id show_reasoning chunks "" s plain start)
    ∙ nil-append (contents chunks)
