-- ===== src/Keys/Journal/Laws.antt =====
-- The counters and the ring of recent requests of app/config.py over a run of requests.
use mathlib.Core.List.{reverse, reverse-cons, append_assoc}
use custorouter.Common.{
  length-take, sym, ℕ, zero, suc, ◌+◌, ◌≤◌, ◌≡◌, refl, List, [], ◌∷◌, ◌++◌, arith, ltb, length,
  take, Bool-cases, inl, inr, ap, ◌∙◌, map,
}
use custorouter.Keys.State.{State, LogItem}
use custorouter.Keys.Journal.{Call, drop_last, push_recent, item_of, add_request_log}

drop_last-take :
    (n : ℕ) (x : LogItem) (xs : List LogItem) → length xs ≡ n → drop_last (x ∷ xs) ≡ take n (x ∷ xs)
drop_last-take zero x [] e = refl
drop_last-take zero x (y ∷ xs) e = absurd (omega arith)
drop_last-take (suc n) x [] e = absurd (omega arith)
drop_last-take (suc n) x (y ∷ xs) e = ap (λ t. x ∷ t) (drop_last-take n y xs (omega arith))

take_short : (n : ℕ) (xs : List LogItem) → length xs ≤ n → take n xs ≡ xs
take_short zero [] h = refl
take_short zero (x ∷ xs) h = elim h [ ]
take_short (suc n) [] h = refl
take_short (suc n) (x ∷ xs) h = ap (λ t. x ∷ t) (take_short n xs (omega arith))

push_recent-take :
    (item : LogItem) (recent : List LogItem)
    → length recent ≤ 20
    → push_recent item recent ≡ take 20 (item ∷ recent)
unfolding push_recent
push_recent-take item recent h = elim (Bool-cases (ltb 20 (length (item ∷ recent)))) [
  | inl full ↦ rw full (drop_last-take 20 item recent (ground arith))
  | inr room ↦ rw room (sym (take_short 20 (item ∷ recent) (ground arith)))
]

take-take_le : (n m : ℕ) (ys : List LogItem) → n ≤ m → take n (take m ys) ≡ take n ys
take-take_le zero m ys h = refl
take-take_le (suc n) zero ys h = absurd (omega arith)
take-take_le (suc n) (suc m) [] h = refl
take-take_le (suc n) (suc m) (y ∷ ys) h = ap (λ t. y ∷ t) (take-take_le n m ys (omega arith))

take-append-take :
    (n m : ℕ) (xs ys : List LogItem) → n ≤ m → take n (xs ++ take m ys) ≡ take n (xs ++ ys)
take-append-take n m [] ys h = take-take_le n m ys h
take-append-take zero m (x ∷ xs) ys h = refl
take-append-take (suc n) m (x ∷ xs) ys h =
    ap (λ t. x ∷ t) (take-append-take n m xs ys (omega arith))

-- A run of requests, each with the instant of its call.
abbrev pub log_all : List (ℕ × Call) → State → State
log_all [] s = s
log_all ((clock, c) ∷ calls) s = log_all calls (add_request_log clock c s)

abbrev pub logged : List (ℕ × Call) → List LogItem
logged calls = map (λ c. item_of c.0 c.1) calls

abbrev pub tokens : List (ℕ × Call) → ℕ
tokens [] = 0
tokens ((clock, c) ∷ calls) = (c.input_tokens + c.output_tokens) + tokens calls

-- After any run of requests from a state with at most 20 recent ones, the counters have grown by the
-- number of requests and by their input and output tokens, and the recent requests are the newest 20,
-- newest first.
pub log_all_lem :
    (calls : List (ℕ × Call)) (s : State)
    → length s.recent_requests ≤ 20
    → ((log_all calls s).total_requests ≡ s.total_requests + length calls)
      × ((log_all calls s).total_tokens ≡ s.total_tokens + tokens calls)
      × ((log_all calls s).recent_requests ≡ take 20 (reverse (logged calls) ++ s.recent_requests))
      × (length (log_all calls s).recent_requests ≤ 20)
unfolding add_request_log
log_all_lem [] s h = (omega arith, omega arith, sym (take_short 20 s.recent_requests h), h)
log_all_lem ((clock, c) ∷ calls) s h =
    let t = add_request_log clock c s in
    let item = item_of clock c in
    let pushed = push_recent-take item s.recent_requests h in
    let short : length t.recent_requests ≤ 20 =
      rw pushed (omega (arith, length-take 20 (item ∷ s.recent_requests))) in
    let (requests, spent, recent, room) = log_all_lem calls t short in
    (
      requests ∙ omega arith,
      spent ∙ omega arith,
      recent
          ∙ rw pushed (
              take-append-take 20 20 (reverse (logged calls)) (item ∷ s.recent_requests)
                (omega arith)
              ∙ ap (take 20) (
                  sym (
                    ap (λ l. l ++ s.recent_requests) (reverse-cons item (logged calls))
                    ∙ append_assoc (reverse (logged calls)) (item ∷ []) s.recent_requests))),
      room,
    )
