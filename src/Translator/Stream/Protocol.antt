-- ===== src/Translator/Stream/Protocol.antt =====
-- The block protocol of an Anthropic stream, as a machine that reads events: one block open at a
-- time, in the order of the indices, and no index twice.
use custorouter.Common.{
  ℕ, suc, Option, none, some, ◌>>=◌, List, [], ◌∷◌, ◌≡◌, ◌==◌, if◌then◌else◌, snoc, inl, inr,
  Option-cases, arith,
}
use custorouter.Translator.Stream.Blocks.{Event}

-- Before the start; within the message, with the block that is open and the next index; behind the
-- message's delta; at the end.
pub data Phase : Type 0 where
  before : Phase
  running : Option ℕ → ℕ → Phase
  ending : Phase
  ended : Phase

-- What an event may do next; a breach of the protocol has no answer.
abbrev pub read_event : Phase → Event → Option Phase
read_event Phase.before (Event.message_start _ _ _) = some (Phase.running none 0)
read_event (Phase.running o n) Event.ping = some (Phase.running o n)
read_event (Phase.running none n) (Event.content_block_start i _) =
    if i == n then some (Phase.running (some i) (suc n)) else none
read_event (Phase.running (some o) n) (Event.content_block_delta i _) =
    if i == o then some (Phase.running (some o) n) else none
read_event (Phase.running (some o) n) (Event.content_block_stop i) =
    if i == o then some (Phase.running none n) else none
read_event (Phase.running none n) (Event.message_delta _ _) = some Phase.ending
read_event Phase.ending Event.message_stop = some Phase.ended
read_event _ _ = none

abbrev pub read_events : Phase → List Event → Option Phase
read_events p [] = some p
read_events p (e ∷ es) = read_event p e >>= λ q. read_events q es

pub read_events-snoc :
    (p : Phase) (es : List Event) (e : Event) {q : Phase}
    → read_events p es ≡ some q
    → read_events p (snoc es e) ≡ read_event q e
read_events-snoc p [] e h = elim (Option-cases (read_event p e)) [
  | inl stuck ↦ ground arith
  | inr (r, moved) ↦ ground arith
]
read_events-snoc p (x ∷ es) e h = elim (Option-cases (read_event p x)) [
  | inl stuck ↦ ground arith
  | inr (r, moved) ↦ rw moved (read_events-snoc r es e (rw moved at h))
]
