-- ===== src/Translator/Stream/Lines.antt =====
-- The lines of an upstream stream in `stream_as_anthropic` (app/translator.py): which chunks they
-- carry, and which errors end the stream.
--
-- A line is as the generator tells it apart; the JSON of its data is read by `json.loads`. That of a
-- body without any framing is read by the argument `loads`.
pub mod Laws
use custorouter.Common.{
  ℕ, Bool, true, false, Option, none, some, String, List, [], ◌∷◌, if◌then◌else◌, nonempty, or_else,
  snoc, strip, join, is_empty,
}
use custorouter.Translator.Stream.{Chunk, feed_chunk, feed_chunks, finish_stream}
use custorouter.Translator.Stream.Blocks.{Event, Stream, new_stream}

-- No `data: ` in front; the mark of the end; data that is no JSON, with the decoder's message; an
-- object with an `error` object and its `message`, if it has one; data where the look at `error`
-- raises another exception, such as a number, or an `error` that is a text; a chunk.
pub data Line : Type 0 where
  unframed : String → Line
  done : Line
  malformed : String → Line
  failure : Option String → Line
  unreadable : Line
  chunk : Chunk → Line

abbrev pub unknown_error : String
unknown_error = "Unknown upstream error"

-- The search for the first chunk: it raises, or finds one, or ends without; in the latter case the
-- lines without framing are kept.
pub data First : Type 0 where
  raised : String → First
  found : Chunk → List Line → First
  missing : List String → List Line → First

unfoldable pub read_first : List Line → List String → First
read_first [] kept = First.missing kept []
read_first (Line.unframed l ∷ ls) kept =
    read_first ls (if nonempty (strip l) then snoc kept l else kept)
read_first (Line.done ∷ ls) kept = First.missing kept ls
read_first (Line.malformed message ∷ ls) kept = First.raised message
read_first (Line.failure message ∷ ls) kept = First.raised (or_else message unknown_error)
read_first (Line.unreadable ∷ ls) kept = read_first ls kept
read_first (Line.chunk c ∷ ls) kept = First.found c ls

-- An unframed body as `json.loads` reads it: no object with a truthy `error`; an `error` object with
-- its message; another `error`, as `str` shows it.
pub data Body : Type 0 where
  no_error : Body
  error_object : Option String → Body
  error_other : String → Body

abbrev or_unknown : String → String
or_unknown m = if nonempty m then m else unknown_error

unfoldable pub body_error : Option Body → Option String
body_error none = none
body_error (some Body.no_error) = none
body_error (some (Body.error_object message)) = some (or_unknown (or_else message ""))
body_error (some (Body.error_other shown)) = some (or_unknown shown)

unfoldable pub unframed_error : (String → Option Body) → List String → Option String
unfolding body_error
unframed_error loads kept = if is_empty kept then none else body_error (loads (join "\n" kept))

-- `get_chunks`, behind the first chunk: the chunks up to the end or to an error.
unfoldable pub get_chunks : List Line → List Chunk × Option String
get_chunks [] = ([], none)
get_chunks (Line.unframed l ∷ ls) = get_chunks ls
get_chunks (Line.done ∷ ls) = ([], none)
get_chunks (Line.malformed message ∷ ls) = ([], some message)
get_chunks (Line.failure message ∷ ls) = ([], some (or_else message unknown_error))
get_chunks (Line.unreadable ∷ ls) = get_chunks ls
get_chunks (Line.chunk c ∷ ls) = let (cs, error) = get_chunks ls in (c ∷ cs, error)

-- What the generator yields, and the message of the ValueError that ends it, if one does.
pub record Relay : Type 0 where
  pub events : List Event
  pub error : Option String

abbrev pub refused : String → Relay
refused message = record { events = []; error = some message }

module _ (wide : ℕ → Bool) (call_id : ℕ → String) (show_reasoning : Bool) where
  -- From `message_start` on.
  unfoldable pub relay_rest : List Chunk → Option String → Stream → Relay
  relay_rest chunks none s = record {
    events = (finish_stream (feed_chunks wide call_id show_reasoning chunks s)).events;
    error = none;
  }
  relay_rest chunks (some message) s = record {
    events = (feed_chunks wide call_id show_reasoning chunks s).events;
    error = some message;
  }

  unfoldable pub relay_first : (String → Option Body) → First → Stream → Relay
  unfolding relay_rest unframed_error get_chunks
  relay_first loads (First.raised message) s = refused message
  relay_first loads (First.found c ls) s =
      let (cs, error) = get_chunks ls in relay_rest (c ∷ cs) error s
  relay_first loads (First.missing kept ls) s = elim (unframed_error loads kept) [
    | some message ↦ refused message
    | none ↦ relay_rest (get_chunks ls).0 (get_chunks ls).1 s
  ]

  -- `stream_as_anthropic`
  unfoldable pub stream_as_anthropic :
      (String → Option Body) → String → String → ℕ → List Line → Relay
  unfolding relay_first read_first
  stream_as_anthropic loads msg_id model input_tokens lines =
      relay_first loads (read_first lines []) (new_stream msg_id model input_tokens)
