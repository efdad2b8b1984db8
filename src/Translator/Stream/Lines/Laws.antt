-- ===== src/Translator/Stream/Lines/Laws.antt =====
-- Errors and chunks of an upstream stream (`stream_as_anthropic`, app/translator.py).
use custorouter.Common.{
  ℕ, Bool, true, false, Option, none, some, String, List, [], ◌∷◌, ◌++◌, ◌≡◌, refl, ◌∙◌, ap, ◌&&◌,
  or_else, arith, inl, inr, Option-cases, if◌then◌else◌, nonempty, snoc, strip,
}
use custorouter.Translator.Stream.{Chunk, relay_chunks}
use custorouter.Translator.Stream.Blocks.{Event, new_stream}
use custorouter.Translator.Stream.Lines.{
  Line, First, Body, unknown_error, refused, read_first, get_chunks, relay_first, relay_rest,
  unframed_error, stream_as_anthropic,
}
use custorouter.Translator.Stream.Protocol.{Phase, read_events}
use custorouter.Translator.Stream.Order.{in_order}
use custorouter.Translator.Stream.Framed.{relay_chunks-IsFramed}
use custorouter.Translator.Stream.Sent.{sent_text}
use custorouter.Translator.Stream.Received.{all_plain, contents, relay_chunks-sends}

-- What the search for the first chunk passes over.
abbrev pub is_skipped : Line → Bool
is_skipped (Line.unframed _) = true
is_skipped Line.unreadable = true
is_skipped _ = false

abbrev pub all_skipped : List Line → Bool
all_skipped [] = true
all_skipped (l ∷ ls) = is_skipped l && all_skipped ls

abbrev keep_line : Line → List String → List String
keep_line (Line.unframed l) kept = if nonempty (strip l) then snoc kept l else kept
keep_line _ kept = kept

-- The error that a line raises, if it does.
abbrev pub error_of : Line → Option String
error_of (Line.malformed message) = some message
error_of (Line.failure message) = some (or_else message unknown_error)
error_of _ = none

read_first-raised :
    (skipped : List Line) (l : Line) (rest : List Line) (kept : List String) {message : String}
    → all_skipped skipped ≡ true
    → error_of l ≡ some message
    → read_first (skipped ++ l ∷ rest) kept ≡ First.raised message
unfolding read_first
read_first-raised [] (Line.malformed m) rest kept h e = ground arith
read_first-raised [] (Line.failure m) rest kept h e = ground arith
read_first-raised [] (Line.unframed _) rest kept h e = cc
read_first-raised [] Line.done rest kept h e = cc
read_first-raised [] Line.unreadable rest kept h e = cc
read_first-raised [] (Line.chunk _) rest kept h e = cc
read_first-raised (Line.unframed x ∷ ls) l rest kept h e =
    read_first-raised ls l rest (keep_line (Line.unframed x) kept) h e
read_first-raised (Line.unreadable ∷ ls) l rest kept h e = read_first-raised ls l rest kept h e
read_first-raised (Line.done ∷ ls) l rest kept h e = cc
read_first-raised (Line.malformed _ ∷ ls) l rest kept h e = cc
read_first-raised (Line.failure _ ∷ ls) l rest kept h e = cc
read_first-raised (Line.chunk _ ∷ ls) l rest kept h e = cc

-- An error in front of the first chunk leaves the stream unopened: whatever unframed and unreadable
-- lines come before it, nothing is yielded at all, and the error that is raised is that of the line.
pub stream_as_anthropic-refused :
    (wide : ℕ → Bool) (call_id : ℕ → String) (show_reasoning : Bool) (loads : String → Option Body)
    (msg_id model : String) (input_tokens : ℕ) (skipped : List Line) (l : Line) (rest : List Line)
    {message : String}
    → all_skipped skipped ≡ true
    → error_of l ≡ some message
    → stream_as_anthropic wide call_id show_reasoning loads msg_id model input_tokens
        (skipped ++ l ∷ rest)
      ≡ refused message
unfolding stream_as_anthropic relay_first
stream_as_anthropic-refused wide call_id show_reasoning loads msg_id model input_tokens skipped l
      rest h e =
    ap (λ f. relay_first wide call_id show_reasoning loads f (new_stream msg_id model input_tokens))
      (read_first-raised skipped l rest [] h e)

-- The chunks that a stream carries, up to the mark of its end.
abbrev pub carried : First → List Chunk
carried (First.raised _) = []
carried (First.found c ls) = c ∷ (get_chunks ls).0
carried (First.missing _ ls) = (get_chunks ls).0

abbrev pub chunks_of : List Line → List Chunk
chunks_of lines = carried (read_first lines [])

module _ (wide : ℕ → Bool) (call_id : ℕ → String) (show_reasoning : Bool)
    (loads : String → Option Body) (msg_id model : String) (input_tokens : ℕ) where
  abbrev relayed : List Chunk → List Event
  relayed chunks =
      (relay_chunks wide call_id show_reasoning msg_id model input_tokens chunks).events

  relay_rest_complete :
      (chunks : List Chunk) (error : Option String)
      → (relay_rest wide call_id show_reasoning chunks error
          (new_stream msg_id model input_tokens)).error
        ≡ none
      → (relay_rest wide call_id show_reasoning chunks error
          (new_stream msg_id model input_tokens)).events
        ≡ relayed chunks
  unfolding relay_rest relay_chunks
  relay_rest_complete chunks none h = refl
  relay_rest_complete chunks (some message) h = cc

  relay_first_complete :
      (f : First)
      → (relay_first wide call_id show_reasoning loads f
          (new_stream msg_id model input_tokens)).error
        ≡ none
      → (relay_first wide call_id show_reasoning loads f
          (new_stream msg_id model input_tokens)).events
        ≡ relayed (carried f)
  unfolding relay_first
  relay_first_complete (First.raised message) h = cc
  relay_first_complete (First.found c ls) h =
      relay_rest_complete (c ∷ (get_chunks ls).0) (get_chunks ls).1 h
  relay_first_complete (First.missing kept ls) h = elim (Option-cases (unframed_error loads kept)) [
    | inl fine ↦
        let rest = relay_rest_complete (get_chunks ls).0 (get_chunks ls).1 in ground (arith, rest)
    | inr (message, wrong) ↦ absurd (ground arith)
  ]

  complete :
      (lines : List Line)
      → (stream_as_anthropic wide call_id show_reasoning loads msg_id model input_tokens
          lines).error
        ≡ none
      → (stream_as_anthropic wide call_id show_reasoning loads msg_id model input_tokens
          lines).events
        ≡ relayed (chunks_of lines)
  unfolding stream_as_anthropic
  complete lines h = relay_first_complete (read_first lines []) h

  -- The events of a stream that ends without an error and whose tool calls come in order follow
  -- Anthropic's block protocol to its end: `message_start` first, then at most one block open at a
  -- time, indices counted up from 0 and never used again, every delta for the block that is open,
  -- every block stopped, and then the delta and the stop of the message. So it is whatever text,
  -- tags, reasoning and token counts the chunks carry.
  pub stream_as_anthropic-IsFramed :
      (lines : List Line)
      → (stream_as_anthropic wide call_id show_reasoning loads msg_id model input_tokens
          lines).error
        ≡ none
      → in_order show_reasoning (chunks_of lines) ≡ true
      → read_events Phase.before
          (stream_as_anthropic wide call_id show_reasoning loads msg_id model input_tokens
            lines).events
        ≡ some Phase.ended
  stream_as_anthropic-IsFramed lines h e =
      ap (read_events Phase.before) (complete lines h)
      ∙ relay_chunks-IsFramed wide call_id show_reasoning msg_id model input_tokens
          (chunks_of lines) e

  -- Text without `<` reaches the client whole and in order: in a stream that ends without an error, the
  -- `text_delta` events, one behind the other, hold exactly the contents of its chunks, wherever the
  -- hold-back of 20 characters, reasoning, tool calls and token counts cut into it.
  pub stream_as_anthropic-sends :
      (lines : List Line)
      → (stream_as_anthropic wide call_id show_reasoning loads msg_id model input_tokens
          lines).error
        ≡ none
      → all_plain (chunks_of lines) ≡ true
      → sent_text
          (stream_as_anthropic wide call_id show_reasoning loads msg_id model input_tokens
            lines).events
        ≡ contents (chunks_of lines)
  stream_as_anthropic-sends lines h e =
      ap sent_text (complete lines h)
      ∙ relay_chunks-sends wide call_id show_reasoning msg_id model input_tokens (chunks_of lines) e
