-- ===== src/OpenAi/Stream/Indexed.antt =====
-- The indices of tool calls in a converted stream (app/translator_openai.py).
use mathlib.Core.Option.{some-injective}
use custorouter.Common.{
  ℕ, suc, ◌≡◌, refl, ◌∙◌, sym, ap, subst, ==_iff, Bool, true, ◌&&◌, Option, none, some, String,
  List, [], ◌∷◌, arith, ◌==◌, ltb, length, all, inl, inr, ◌⊎◌, Bool-cases, Option-cases, nonempty,
}
use custorouter.Translator.Stream.Blocks.{Event, Block, Piece}
use custorouter.Translator.Stream.Protocol.{Phase, read_event, read_events}
use custorouter.OpenAi.Stream.{
  Chunk, index_at, set_index, convert_delta, convert_start, convert, send, convert_all,
}

-- The calls are counted up from 0, and every argument belongs to the latest one.
abbrev pub are_indexed : ℕ → List Chunk → Bool
are_indexed n [] = true
are_indexed n (Chunk.tool_start i _ _ ∷ cs) = i == n && are_indexed (suc n) cs
are_indexed n (Chunk.tool_arguments i _ ∷ cs) = suc i == n && are_indexed n cs
are_indexed n (_ ∷ cs) = are_indexed n cs

abbrev are_below : ℕ → List (ℕ × ℕ) → Bool
are_below n m = all (λ p. ltb p.0 n) m

-- The block that is open is no tool's, or the latest tool's.
abbrev IsLatest : ℕ → List (ℕ × ℕ) → Type 0
IsLatest block m =
    (index_at block m ≡ none) ⊎ ((i : ℕ) × (index_at block m ≡ some i) × (suc i ≡ length m))

-- The dict against what the protocol tells of the events so far.
abbrev Agrees : Phase → List (ℕ × ℕ) → Type 0
Agrees Phase.before m = m ≡ []
Agrees (Phase.running none n) m = are_below n m ≡ true
Agrees (Phase.running (some o) n) m = (are_below n m ≡ true) × IsLatest o m
Agrees Phase.ending m = Unit
Agrees Phase.ended m = Unit

index_at-below : (n : ℕ) (m : List (ℕ × ℕ)) → are_below n m ≡ true → index_at n m ≡ none
unfolding index_at
index_at-below n [] h = refl
index_at-below n ((b, i) ∷ m) h = ground (arith, index_at-below n m)

below-more : (n : ℕ) (m : List (ℕ × ℕ)) → are_below n m ≡ true → are_below (suc n) m ≡ true
below-more n [] h = refl
below-more n ((b, i) ∷ m) h = ground (arith, below-more n m)

set_index-new :
    (n i : ℕ) (m : List (ℕ × ℕ))
    → are_below n m ≡ true
    → (length (set_index n i m) ≡ suc (length m))
      × (index_at n (set_index n i m) ≡ some i)
      × (are_below (suc n) (set_index n i m) ≡ true)
unfolding set_index index_at
set_index-new n i [] h = (refl, ground arith, ground arith)
set_index-new n i ((b, j) ∷ m) h = ground (arith, set_index-new n i m)

abbrev argument_chunk : Option ℕ → String → Option Chunk
argument_chunk none t = none
argument_chunk (some i) t = some (Chunk.tool_arguments i t)

input_delta :
    (o : ℕ) (t : String) (m : List (ℕ × ℕ)) (found : Option ℕ)
    → index_at o m ≡ found
    → convert_delta o (Piece.input_json_delta t) m ≡ argument_chunk found t
unfolding convert_delta
input_delta o t m none e = rw (e, convert_delta) refl
input_delta o t m (some i) e = rw (e, convert_delta) refl

module _ (es : List Event) where
  -- What the events behind one may go on.
  abbrev Rest : Phase → Type 0
  Rest p = (m : List (ℕ × ℕ)) → Agrees p m → are_indexed (length m) (convert_all es m) ≡ true

  start-indexed :
      (n : ℕ) (b : Block) (m : List (ℕ × ℕ))
      → Rest (Phase.running (some n) (suc n))
      → are_below n m ≡ true
      → are_indexed (length m) (convert_all (Event.content_block_start n b ∷ es) m) ≡ true
  unfolding convert_all convert_start
  start-indexed n (Block.tool_use id name) m rest h =
      let (size, at, below) = set_index-new n (length m) m h in
      ground (arith, rest (set_index n (length m) m) (below, inr (length m, at, sym size)), size)
  start-indexed n Block.text_block m rest h = rest m (below-more n m h, inl (index_at-below n m h))
  start-indexed n Block.thinking_block m rest h =
      rest m (below-more n m h, inl (index_at-below n m h))

  delta-indexed :
      (o n : ℕ) (piece : Piece) (m : List (ℕ × ℕ))
      → Rest (Phase.running (some o) n)
      → Agrees (Phase.running (some o) n) m
      → are_indexed (length m) (convert_all (Event.content_block_delta o piece ∷ es) m) ≡ true
  unfolding convert_all convert_delta
  delta-indexed o n (Piece.text_delta t) m rest h = rest m h
  delta-indexed o n (Piece.thinking_delta t) m rest h = rest m h
  delta-indexed o n (Piece.input_json_delta t) m rest (below, inl unknown) =
      ap (λ c. are_indexed (length m) (send c (convert_all es m))) (input_delta o t m none unknown)
      ∙ rest m (below, inl unknown)
  delta-indexed o n (Piece.input_json_delta t) m rest (below, inr (i, at, latest)) =
      ap (λ c. are_indexed (length m) (send c (convert_all es m))) (input_delta o t m (some i) at)
      ∙ ground (arith, rest m (below, inr (i, at, latest)))

-- The rest of a stream behind an event that leads to a known phase.
onwards : (es : List Event) (p : Phase) {q : Phase} → some p ≡ some q → Rest es q → Rest es p
onwards es p h rest = subst (Rest es) (sym (some-injective _ _ h)) rest

-- The finish of a message counts no call.
finish-indexed :
    (es : List Event) (reason : String) (tokens : ℕ) (m : List (ℕ × ℕ))
    → are_indexed (length m) (convert_all es m) ≡ true
    → are_indexed (length m) (convert_all (Event.message_delta reason tokens ∷ es) m) ≡ true
unfolding convert_all convert
finish-indexed es reason tokens m h = elim (Bool-cases (nonempty reason)) [
  | inl given ↦ rw given h
  | inr empty ↦ rw empty h
]

-- Each event of the protocol.
event-indexed :
    (p : Phase) (e : Event) (es : List Event) {q : Phase} (m : List (ℕ × ℕ))
    → read_event p e ≡ some q
    → Rest es q
    → Agrees p m
    → are_indexed (length m) (convert_all (e ∷ es) m) ≡ true
unfolding convert_all convert
event-indexed Phase.before (Event.message_start i l n) es m h rest a =
    onwards es (Phase.running none 0) h rest m (ap (are_below 0) a)
event-indexed (Phase.running o n) Event.ping es m h rest a =
    onwards es (Phase.running o n) h rest m a
event-indexed (Phase.running none n) (Event.content_block_start i b) es m h rest a =
    elim (Bool-cases (i == n)) [
      | inl same ↦
          let e : i ≡ n = (==_iff i n).0 same in
          rw e (
            start-indexed es n b m (onwards es (Phase.running (some n) (suc n)) (ground arith) rest)
              a)
      | inr other ↦ absurd (ground arith)
    ]
event-indexed (Phase.running (some o) n) (Event.content_block_delta i piece) es m h rest a =
    elim (Bool-cases (i == o)) [
      | inl same ↦
          let e : i ≡ o = (==_iff i o).0 same in
          rw e (
            delta-indexed es o n piece m (onwards es (Phase.running (some o) n) (ground arith) rest)
              a)
      | inr other ↦ absurd (ground arith)
    ]
event-indexed (Phase.running (some o) n) (Event.content_block_stop i) es m h rest a =
    elim (Bool-cases (i == o)) [
      | inl same ↦ onwards es (Phase.running none n) (ground arith) rest m a.0
      | inr other ↦ absurd (ground arith)
    ]
event-indexed (Phase.running none n) (Event.message_delta reason tokens) es m h rest a =
    finish-indexed es reason tokens m (onwards es Phase.ending h rest m tt)
event-indexed Phase.ending Event.message_stop es m h rest a = onwards es Phase.ended h rest m tt
event-indexed _ _ es m h rest a = cc

convert_all-Agrees :
    (p : Phase) (es : List Event) (m : List (ℕ × ℕ)) (last : Phase)
    → read_events p es ≡ some last
    → Agrees p m
    → are_indexed (length m) (convert_all es m) ≡ true
unfolding convert_all
convert_all-Agrees p [] m last h a = refl
convert_all-Agrees p (e ∷ es) m last h a = elim (Option-cases (read_event p e)) [
  | inl stuck ↦ absurd (ground arith)
  | inr (q, moved) ↦
      event-indexed p e es m moved (λ n b. convert_all-Agrees q es n last (ground arith) b) a
]

-- From a stream that keeps to the block protocol the converter makes OpenAI's numbering of tool calls:
-- the calls are counted up from 0 without a gap, whatever blocks of text and thinking lie between them,
-- and each piece of arguments carries the index of the latest call.
pub convert_all-indexed :
    (es : List Event) (last : Phase)
    → read_events Phase.before es ≡ some last
    → are_indexed 0 (convert_all es []) ≡ true
convert_all-indexed es last h = convert_all-Agrees Phase.before es [] last h refl
