-- ===== src/Events/Tests.antt =====
-- Tests and examples of the event queues of app/sse.py.
use custorouter.Common.{◌≡◌, true, [], ◌∷◌, arith, map}
use custorouter.Events.{Broadcaster, broadcast_all}
use custorouter.Events.Laws.{receive, broadcast_all-receive}

abbrev worker : Broadcaster
worker = record {
  origin = "w1";
  listening = true;
  next = 2;
  queues = (0, "a" ∷ []) ∷ (1, []) ∷ [];
  published = [];
}

broadcast_all-receive_example :
    (broadcast_all ("b" ∷ "c" ∷ []) worker).queues ≡ map (receive ("b" ∷ "c" ∷ [])) worker.queues
broadcast_all-receive_example =
    broadcast_all-receive ("b" ∷ "c" ∷ []) worker (omega arith, (omega arith, tt))
