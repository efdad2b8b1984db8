-- ===== src/OpenAi/Stream/Texts.antt =====
-- A stream through both translators (app/translator.py, app/translator_openai.py).
use Prim.Native.String
use text.Mathlib.TextLemmas.{nil-append}
use custorouter.Common.{
  ℕ, ◌≡◌, refl, ◌∙◌, sym, ap, Bool, true, Option, none, String, List, [], ◌∷◌, inl, inr, Bool-cases,
  Option-cases, nonempty, arith,
}
use custorouter.Translator.Stream.Blocks.{Event, Block, Piece}
use custorouter.Translator.Stream.Sent.{event_text, sent_text}
use custorouter.Translator.Stream.Received.{all_plain, contents}
use custorouter.Translator.Stream.Order.{in_order}
use custorouter.Translator.Stream.Protocol.{Phase}
use custorouter.Translator.Stream.Lines.{Body, Line, stream_as_anthropic}
use custorouter.Translator.Stream.Lines.Laws.{
  chunks_of, stream_as_anthropic-IsFramed, stream_as_anthropic-sends,
}
use custorouter.OpenAi.Stream.{
  Chunk, index_at, convert_delta, convert_start, convert, send, convert_all,
}
use custorouter.OpenAi.Stream.Indexed.{are_indexed, convert_all-indexed}

abbrev pub chunk_text : Chunk → String
chunk_text (Chunk.content t) = t
chunk_text _ = ""

-- The `content` deltas, one behind the other.
abbrev pub chunk_texts : List Chunk → String
chunk_texts [] = ""
chunk_texts (c ∷ cs) = String.◌++◌ (chunk_text c) (chunk_texts cs)

convert-text :
    (e : Event) (m : List (ℕ × ℕ)) (cs : List Chunk)
    → chunk_texts (send (convert e m).0 cs) ≡ String.◌++◌ (event_text e) (chunk_texts cs)
unfolding convert convert_start convert_delta
convert-text (Event.message_start _ _ _) m cs = refl
convert-text (Event.content_block_start i (Block.tool_use id name)) m cs = refl
convert-text (Event.content_block_start i Block.text_block) m cs = sym (nil-append (chunk_texts cs))
convert-text (Event.content_block_start i Block.thinking_block) m cs =
    sym (nil-append (chunk_texts cs))
convert-text (Event.content_block_delta i (Piece.text_delta t)) m cs = refl
convert-text (Event.content_block_delta i (Piece.thinking_delta t)) m cs = refl
convert-text (Event.content_block_delta i (Piece.input_json_delta t)) m cs =
    elim (Option-cases (index_at i m)) [
      | inl unknown ↦ ground (arith, nil-append (chunk_texts cs))
      | inr (k, found) ↦ ground arith
    ]
convert-text (Event.content_block_stop _) m cs = sym (nil-append (chunk_texts cs))
convert-text Event.ping m cs = sym (nil-append (chunk_texts cs))
convert-text (Event.message_delta reason tokens) m cs = elim (Bool-cases (nonempty reason)) [
  | inl given ↦ rw given refl
  | inr empty ↦ rw empty (sym (nil-append (chunk_texts cs)))
]
convert-text Event.message_stop m cs = sym (nil-append (chunk_texts cs))

convert_all-texts :
    (es : List Event) (m : List (ℕ × ℕ)) → chunk_texts (convert_all es m) ≡ sent_text es
unfolding convert_all
convert_all-texts [] m = refl
convert_all-texts (e ∷ es) m =
    convert-text e m (convert_all es (convert e m).1)
    ∙ ap (String.◌++◌ (event_text e)) (convert_all-texts es (convert e m).1)

-- An OpenAI stream that goes through both translators, as one behind the OpenAI-compatible endpoint
-- does, comes out with its text: if it ends without an error, its tool calls come in order and its text
-- holds no `<`, then the chunks carry exactly its contents, and their tool calls are counted up from 0
-- with every piece of arguments at the latest call.
pub convert_all-stream_as_anthropic :
    (wide : ℕ → Bool) (call_id : ℕ → String) (show_reasoning : Bool) (loads : String → Option Body)
    (msg_id model : String) (input_tokens : ℕ) (lines : List Line)
    → (stream_as_anthropic wide call_id show_reasoning loads msg_id model input_tokens lines).error
      ≡ none
    → in_order show_reasoning (chunks_of lines) ≡ true
    → all_plain (chunks_of lines) ≡ true
    → (chunk_texts (
          convert_all
            (stream_as_anthropic wide call_id show_reasoning loads msg_id model input_tokens
              lines).events
            [])
        ≡ contents (chunks_of lines))
      × (are_indexed 0 (
            convert_all
              (stream_as_anthropic wide call_id show_reasoning loads msg_id model input_tokens
                lines).events
              [])
          ≡ true)
convert_all-stream_as_anthropic wide call_id show_reasoning loads msg_id model input_tokens lines
      fine ordered plain =
    let es =
      (stream_as_anthropic wide call_id show_reasoning loads msg_id model input_tokens
        lines).events in
    let framed =
      stream_as_anthropic-IsFramed wide call_id show_reasoning loads msg_id model input_tokens lines
        fine ordered in
    let sent =
      stream_as_anthropic-sends wide call_id show_reasoning loads msg_id model input_tokens lines
        fine plain in
    (convert_all-texts es [] ∙ sent, convert_all-indexed es Phase.ended framed)
