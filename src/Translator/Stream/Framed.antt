-- ===== src/Translator/Stream/Framed.antt =====
-- A whole stream of `stream_as_anthropic` (app/translator.py) keeps to the block protocol.
use mathlib.Core.Option.{some-injective}
use custorouter.Common.{
  ℕ, suc, ◌≡◌, refl, ◌∙◌, subst, Option, none, some, String, List, [], ◌∷◌, arith, inl, inr,
  Option-cases, Bool, true, false, Bool-cases, ◌==◌, ◌||◌, ◌&&◌, nonempty, snoc, or_else,
  if◌then◌else◌,
}
use custorouter.Translator.Stream.{
  Chunk, count_tokens, note_finish, feed_reasoning, feed_content, feed_chunk, feed_chunks,
  finish_stream, relay_chunks,
}
use custorouter.Translator.Stream.Blocks.{
  Kind, Event, Stream, call_at, emit, stop_current, enter, new_stream, flush_text,
}
use custorouter.Translator.Stream.Blocks.Framed.{
  IsFramed, read_more, stop_current-IsFramed, stop_current-none, enter-IsFramed, send-IsFramed,
  flush_text-IsFramed,
}
use custorouter.Translator.Stream.Text.Framed.{feed_text-IsFramed}
use custorouter.Translator.Stream.Text.Calls.{feed_text-calls, enter-calls, send-calls}
use custorouter.Translator.Stream.Protocol.{Phase, read_events, read_events-snoc}
use custorouter.Translator.Stream.Orderly.{
  Orderly, same-Live, same_calls, tool_deltas-Orderly, flush_before_tools-Orderly,
}
use custorouter.Translator.Stream.Order.{interrupts, order_chunk, order_chunks, in_order}

feed_reasoning-Orderly :
    (show_reasoning : Bool) (r : Option String) (live : Option ℕ) (seen : List ℕ) (s : Stream)
    → Orderly (live, seen) s
    → Orderly
        (if nonempty (or_else r "") && show_reasoning then none else live, seen)
        (feed_reasoning show_reasoning r s)
unfolding feed_reasoning
feed_reasoning-Orderly show_reasoning none live seen s h = h
feed_reasoning-Orderly show_reasoning (some r) live seen s h =
    elim (Bool-cases (nonempty r && show_reasoning)) [
      | inr quiet ↦ rw quiet h
      | inl shown ↦
          let t = enter Kind.thinking s in
          let counted = record t { output_tokens = suc t.output_tokens } in
          rw shown (
            send-IsFramed Kind.thinking r counted (enter-IsFramed true s h.0),
            tt,
            same_calls seen (send-calls Kind.thinking r counted ∙ enter-calls Kind.thinking s) h.2,
          )
    ]

feed_content-Orderly :
    (wide : ℕ → Bool) (text : Option String) (live : Option ℕ) (seen : List ℕ) (s : Stream)
    → Orderly (live, seen) s
    → Orderly (if nonempty (or_else text "") then none else live, seen) (feed_content wide text s)
unfolding feed_content
feed_content-Orderly wide none live seen s h = h
feed_content-Orderly wide (some text) live seen s h = elim (Bool-cases (nonempty text)) [
  | inr empty ↦ rw empty h
  | inl fed ↦
      rw fed
        (feed_text-IsFramed wide text s h.0, tt, same_calls seen (feed_text-calls wide text s) h.2)
]

count_tokens-Orderly :
    (tokens : Option ℕ) (p : Option ℕ × List ℕ) (s : Stream)
    → Orderly p s
    → Orderly p (count_tokens tokens s)
unfolding count_tokens
count_tokens-Orderly none (live, seen) s h = h
count_tokens-Orderly (some n) (live, seen) s h = elim (Bool-cases (n == 0)) [
  | inl zero_tokens ↦ rw zero_tokens h
  | inr counted ↦ rw counted (h.0, same-Live live s _ h.1 refl refl, h.2)
]

note_finish-Orderly :
    (fr : Option String) (p : Option ℕ × List ℕ) (s : Stream)
    → Orderly p s
    → Orderly p (note_finish fr s)
unfolding note_finish
note_finish-Orderly none (live, seen) s h = h
note_finish-Orderly (some fr) (live, seen) s h = elim (Bool-cases (nonempty fr)) [
  | inl noted ↦ rw noted (h.0, same-Live live s _ h.1 refl refl, h.2)
  | inr empty ↦ rw empty h
]

interrupted_twice :
    (b c : Bool) (live : Option ℕ)
    → (if b then none else (if c then none else live)) ≡ (if b || c then none else live)
interrupted_twice true c live = refl
interrupted_twice false c live = refl

module _ (wide : ℕ → Bool) (call_id : ℕ → String) (show_reasoning : Bool) where
  feed_chunk-Orderly :
      (c : Chunk) (live : Option ℕ) (seen : List ℕ) (s : Stream) {after : Option ℕ × List ℕ}
      → order_chunk show_reasoning c live seen ≡ some after
      → Orderly (live, seen) s
      → Orderly after (feed_chunk wide call_id show_reasoning c s)
  unfolding feed_chunk
  feed_chunk-Orderly (Chunk.usage_only tokens) live seen s e h =
      count_tokens-Orderly tokens _ s (subst (λ p. Orderly p s) (some-injective _ _ e) h)
  feed_chunk-Orderly (Chunk.choice delta fr tokens) live seen s e h =
      let noted = note_finish fr s in
      let counted = count_tokens tokens noted in
      let start =
        count_tokens-Orderly tokens (live, seen) noted (note_finish-Orderly fr (live, seen) s h) in
      let reasoned = feed_reasoning show_reasoning delta.reasoning_content counted in
      let quiet = nonempty (or_else delta.reasoning_content "") && show_reasoning in
      let told = feed_content wide delta.content reasoned in
      let spoken : Orderly (if interrupts show_reasoning delta then none else live, seen) told =
        subst (λ l. Orderly (l, seen) told)
          (interrupted_twice (nonempty (or_else delta.content "")) quiet live)
          (feed_content-Orderly wide delta.content _ seen reasoned (
            feed_reasoning-Orderly show_reasoning delta.reasoning_content live seen counted
              start)) in
      let (flushed, ready) = flush_before_tools-Orderly delta.tool_calls _ seen told spoken in
      tool_deltas-Orderly call_id delta.tool_calls _ seen _ e ready flushed

  feed_chunks-IsFramed :
      (cs : List Chunk) (live : Option ℕ) (seen : List ℕ) (s : Stream)
      → order_chunks show_reasoning cs live seen ≡ true
      → Orderly (live, seen) s
      → IsFramed (feed_chunks wide call_id show_reasoning cs s)
  unfolding feed_chunks
  feed_chunks-IsFramed [] live seen s e h = h.0
  feed_chunks-IsFramed (c ∷ cs) live seen s e h =
      elim (Option-cases (order_chunk show_reasoning c live seen)) [
        | inl back ↦ absurd (ground arith)
        | inr ((live', seen'), next) ↦
            feed_chunks-IsFramed cs live' seen' (feed_chunk wide call_id show_reasoning c s)
              (ground arith) (feed_chunk-Orderly c live seen s next h)
      ]

new_stream-Orderly :
    (msg_id model : String) (input_tokens : ℕ)
    → Orderly (none, []) (new_stream msg_id model input_tokens)
unfolding new_stream call_at
new_stream-Orderly msg_id model input_tokens = ((refl, tt), tt, λ j e. cc)

end_reads :
    (s : Stream) (reason : String) (tokens : ℕ)
    → IsFramed s
    → read_events Phase.before
        (snoc (snoc (stop_current s).events (Event.message_delta reason tokens)) Event.message_stop)
      ≡ some Phase.ended
end_reads s reason tokens h =
    let delta = Event.message_delta reason tokens in
    let t = stop_current s in
    let closed = stop_current-none s in
    let before_end : read_events Phase.before (snoc t.events delta) ≡ some Phase.ending =
      read_more t delta Phase.ending (stop_current-IsFramed s h).0 (ground arith) in
    read_events-snoc Phase.before (snoc t.events delta) Event.message_stop before_end

-- The stop of the block that is open, and the two events at the end.
finish_stream-reads :
    (s : Stream) → IsFramed s → read_events Phase.before (finish_stream s).events ≡ some Phase.ended
unfolding finish_stream emit
finish_stream-reads s h = elim (Bool-cases (nonempty s.text_buffer)) [
  | inl held ↦ rw held (end_reads (flush_text s) _ _ (flush_text-IsFramed s h))
  | inr empty ↦ rw empty (end_reads s _ _ h)
]

pub relay_chunks-IsFramed :
    (wide : ℕ → Bool) (call_id : ℕ → String) (show_reasoning : Bool) (msg_id model : String)
    (input_tokens : ℕ) (chunks : List Chunk)
    → in_order show_reasoning chunks ≡ true
    → read_events Phase.before
        (relay_chunks wide call_id show_reasoning msg_id model input_tokens chunks).events
      ≡ some Phase.ended
unfolding relay_chunks
relay_chunks-IsFramed wide call_id show_reasoning msg_id model input_tokens chunks e =
    let s = new_stream msg_id model input_tokens in
    finish_stream-reads (feed_chunks wide call_id show_reasoning chunks s) (
      feed_chunks-IsFramed wide call_id show_reasoning chunks none [] s e
        (new_stream-Orderly msg_id model input_tokens))
