-- ===== src/Events/Laws.antt =====
-- The queues of the dashboards after events, and the relay between workers (app/sse.py).
use mathlib.Core.List.{append_assoc, append-nil}
use custorouter.Common.{
  length-drop, ℕ, zero, suc, ◌+◌, ◌-◌, ◌≤◌, ◌<◌, ◌≡◌, refl, ◌≢◌, inl, inr, true, false, some,
  String, List, [], ◌∷◌, ◌++◌, arith, leb, length, length-append, drop, snoc, All, map, eq_iff,
  Bool-cases, ◌∙◌, sym, ap,
}
use custorouter.Events.{
  maxsize, drop_oldest, offer, Broadcaster, fan, fanout, publish_later, broadcast, broadcast_all,
  envelope, relay,
}

-- The last `n` of a list, or all of it.
abbrev pub newest : ℕ → List String → List String
newest n xs = drop (length xs - n) xs

-- A listener with its queue, after the events.
abbrev pub receive : List String → ℕ × List String → ℕ × List String
receive es (i, q) = (i, newest maxsize (q ++ es))

abbrev pub Fits : ℕ × List String → Type 0
Fits (i, q) = length q ≤ maxsize

drop-append : (a : ℕ) (xs ys : List String) → a ≤ length xs → drop a (xs ++ ys) ≡ drop a xs ++ ys
drop-append zero xs ys h = refl
drop-append (suc a) [] ys h = absurd (omega arith)
drop-append (suc a) (x ∷ xs) ys h = drop-append a xs ys (omega arith)

drop-nil : (n : ℕ) → drop {A = String} n [] ≡ []
drop-nil zero = refl
drop-nil (suc n) = refl

drop-cong : (m n : ℕ) (xs : List String) → m ≡ n → drop m xs ≡ drop n xs
drop-cong m n xs e = ap (λ k. drop k xs) e

drop-drop : (a b : ℕ) (xs : List String) → drop b (drop a xs) ≡ drop (a + b) xs
drop-drop zero b xs = drop-cong b (0 + b) xs (omega arith)
drop-drop (suc a) b [] = drop-nil b ∙ sym (drop-nil (suc a + b))
drop-drop (suc a) b (x ∷ xs) =
    drop-drop a b xs ∙ drop-cong (suc (a + b)) (suc a + b) (x ∷ xs) (omega arith)

-- What is dropped early would be dropped later.
newest-append : (n : ℕ) (xs ys : List String) → newest n (newest n xs ++ ys) ≡ newest n (xs ++ ys)
newest-append n xs ys =
    let a = length xs - n in
    let rest = drop a xs ++ ys in
    let whole : rest ≡ drop a (xs ++ ys) = sym (drop-append a xs ys (omega arith)) in
    let size : a + (length rest - n) ≡ length (xs ++ ys) - n =
      omega (arith, length-append (drop a xs) ys, length-drop a xs, length-append xs ys) in
    ap (drop (length rest - n)) whole
    ∙ drop-drop a (length rest - n) (xs ++ ys)
    ∙ drop-cong (a + (length rest - n)) (length (xs ++ ys) - n) (xs ++ ys) size

newest-short : (n : ℕ) (xs : List String) → length xs ≤ n → newest n xs ≡ xs
newest-short n xs h = drop-cong (length xs - n) 0 xs (omega arith)

length-newest : (n : ℕ) (xs : List String) → length (newest n xs) ≤ n
length-newest n xs = omega (arith, length-drop (length xs - n) xs)

offer_room :
    (event : String) (q : List String)
    → leb maxsize (length q) ≡ false
    → offer event q ≡ some (snoc q event)
unfolding offer
offer_room event q h = ground arith

offer_full :
    (event : String) (q : List String)
    → leb maxsize (length q) ≡ true
    → offer event q ≡ drop_oldest event q
unfolding offer
offer_full event q h = rw (h, offer) refl

drop_oldest-newest :
    (event : String) (q : List String)
    → length q ≡ maxsize
    → drop_oldest event q ≡ some (newest maxsize (snoc q event))
drop_oldest-newest event [] h = absurd (omega (arith, h))
drop_oldest-newest event (x ∷ q) h =
    let size = length-append q (event ∷ []) in
    let one : length (x ∷ snoc q event) - maxsize ≡ 1 = omega (arith, size, h) in
    let free : leb maxsize (length q) ≡ false = ground (arith, h) in
    let last = drop-cong (length (x ∷ snoc q event) - maxsize) 1 (x ∷ snoc q event) one in
    rw free (ap some (sym last))

-- A queue takes an event whether or not it is full, and then holds the newest ones.
offer-newest :
    (event : String) (q : List String)
    → length q ≤ maxsize
    → offer event q ≡ some (newest maxsize (snoc q event))
offer-newest event q h = elim (Bool-cases (leb maxsize (length q))) [
  | inr room ↦
      let size = length-append q (event ∷ []) in
      let free : length q < maxsize = ground arith in
      offer_room event q room
      ∙ ap some (sym (newest-short maxsize (snoc q event) (omega (arith, size, free))))
  | inl full ↦ offer_full event q full ∙ drop_oldest-newest event q (ground arith)
]

fan-receive :
    (event : String) (qs : List (ℕ × List String))
    → All Fits qs
    → fan event qs ≡ map (receive (event ∷ [])) qs
unfolding fan
fan-receive event [] h = refl
fan-receive event ((i, q) ∷ qs) (fits, rest) =
    rw (offer-newest event q fits, fan, fan-receive event qs rest) refl

Fits-received : (es : List String) (qs : List (ℕ × List String)) → All Fits (map (receive es) qs)
Fits-received es [] = tt
Fits-received es ((i, q) ∷ qs) = (length-newest maxsize (q ++ es), Fits-received es qs)

receive-receive :
    (event : String) (es : List String) (qs : List (ℕ × List String))
    → map (receive es) (map (receive (event ∷ [])) qs) ≡ map (receive (event ∷ es)) qs
receive-receive event es [] = refl
receive-receive event es ((i, q) ∷ qs) =
    let here : newest maxsize (newest maxsize (snoc q event) ++ es)
        ≡ newest maxsize (q ++ event ∷ es) =
      newest-append maxsize (snoc q event) es
      ∙ ap (newest maxsize) (append_assoc q (event ∷ []) es) in
    rw (here, receive-receive event es qs) refl

receive-none : (qs : List (ℕ × List String)) → All Fits qs → map (receive []) qs ≡ qs
receive-none [] h = refl
receive-none ((i, q) ∷ qs) (fits, rest) =
    let here : newest maxsize (q ++ []) ≡ q =
      ap (newest maxsize) (append-nil q) ∙ newest-short maxsize q fits in
    rw (here, receive-none qs rest) refl

queues-broadcast :
    (event : String) (b : Broadcaster) → (broadcast event b).queues ≡ fan event b.queues
unfolding broadcast fanout publish_later
queues-broadcast event b = ground arith

origin-broadcast : (event : String) (b : Broadcaster) → (broadcast event b).origin ≡ b.origin
unfolding broadcast fanout publish_later
origin-broadcast event b = ground arith

-- Whatever is broadcast, no listener is dropped and no queue grows beyond its bound: from queues within
-- the bound, every queue afterwards holds the newest 100 of what it held followed by the events, in
-- their order.
pub broadcast_all-receive :
    (es : List String) (b : Broadcaster)
    → All Fits b.queues
    → (broadcast_all es b).queues ≡ map (receive es) b.queues
broadcast_all-receive [] b h = sym (receive-none b.queues h)
broadcast_all-receive (event ∷ es) b h =
    let step = queues-broadcast event b ∙ fan-receive event b.queues h in
    broadcast_all-receive es (broadcast event b) (rw step (Fits-received (event ∷ []) b.queues))
    ∙ ap (map (receive es)) step
    ∙ receive-receive event es b.queues

-- Each event reaches a queue once: after a broadcast by one worker, its own publication adds nothing
-- to its queues, and adds the event once to those of a worker with another origin.
pub relay-once :
    (event : String) (a b : Broadcaster)
    → a.origin ≢ b.origin
    → (relay (envelope (some a.origin) (some event)) (broadcast event a) ≡ broadcast event a)
      × (relay (envelope (some a.origin) (some event)) b ≡ fanout event b)
unfolding relay
relay-once event a b ne = (
  ground (arith, origin-broadcast event a, eq_iff a.origin (broadcast event a).origin),
  ground (arith, eq_iff a.origin b.origin),
)
