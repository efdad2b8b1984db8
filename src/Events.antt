-- ===== src/Events.antt =====
-- app/sse.py: the dashboard's event queues, the fan-out and the relay between workers.
--
-- An event is its encoded text. The queues of the listeners have an identity, a number here; the
-- connection to Redis is left out, apart from what is published and what a worker relays.
pub mod Laws
mod Tests
use custorouter.Common.{
  ℕ, suc, ◌+◌, Bool, true, false, not, Option, none, some, String, List, [], ◌∷◌, leb, ◌==◌,
  if◌then◌else◌, length, snoc, keep, str_eq,
}

-- `asyncio.Queue(maxsize=100)`
abbrev pub maxsize : ℕ
maxsize = 100

-- `put_nowait`, with no answer where it raises QueueFull
abbrev pub put_nowait : String → List String → Option (List String)
put_nowait event q = if leb maxsize (length q) then none else some (snoc q event)

-- What `_fanout` does with one queue: no answer puts it among the dead.
abbrev pub drop_oldest : String → List String → Option (List String)
drop_oldest event [] = none
drop_oldest event (x ∷ q) = put_nowait event q

unfoldable pub offer : String → List String → Option (List String)
offer event q = elim (put_nowait event q) [ some r ↦ some r | none ↦ drop_oldest event q ]

pub record Broadcaster : Type 0 where
  pub origin : String
  pub listening : Bool
  pub next : ℕ
  pub queues : List (ℕ × List String)
  pub published : List (String × String)

-- The loop over the queues, and the removal of the dead ones.
unfoldable pub fan : String → List (ℕ × List String) → List (ℕ × List String)
unfolding offer
fan event [] = []
fan event ((i, q) ∷ qs) =
    let rest = fan event qs in elim (offer event q) [ none ↦ rest | some r ↦ (i, r) ∷ rest ]

unfoldable pub fanout : String → Broadcaster → Broadcaster
unfolding fan
fanout event b = record b { queues = fan event b.queues }

unfoldable pub connect : Broadcaster → ℕ × Broadcaster
connect b = (b.next, record b { next = suc b.next; queues = (b.next, []) ∷ b.queues })

unfoldable pub disconnect : ℕ → Broadcaster → Broadcaster
disconnect i b = record b { queues = keep (λ q. not (q.0 == i)) b.queues }

-- `_publish_later`: only while the listener of Redis runs.
unfoldable pub publish_later : String → Broadcaster → Broadcaster
publish_later event b =
    if b.listening then record b { published = snoc b.published (b.origin, event) } else b

unfoldable pub broadcast : String → Broadcaster → Broadcaster
unfolding fanout publish_later
broadcast event b = publish_later event (fanout event b)

-- A message from Redis: malformed, or an envelope with its origin, if it has one, and its event, if
-- that is an object.
pub data Message : Type 0 where
  malformed : Message
  envelope : Option String → Option String → Message

unfoldable pub relay : Message → Broadcaster → Broadcaster
unfolding fanout
relay malformed b = b
relay (envelope origin none) b = b
relay (envelope none (some event)) b = fanout event b
relay (envelope (some origin) (some event)) b = if str_eq origin b.origin then b else fanout event b

-- A run of broadcasts, one after another.
abbrev pub broadcast_all : List String → Broadcaster → Broadcaster
broadcast_all [] b = b
broadcast_all (event ∷ es) b = broadcast_all es (broadcast event b)
