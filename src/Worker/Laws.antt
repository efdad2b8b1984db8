-- ===== src/Worker/Laws.antt =====
-- What the request-log worker acknowledges (app/request_log_worker.py).
use custorouter.Common.{
  elem-append, ◌>>=◌, ◌≡◌, refl, inl, inr, ◌⊎◌, Bool, true, ◌||◌, Option, none, some, String, List,
  [], ◌∷◌, ◌++◌, arith, elem, eq_iff, Bool-cases, Option-cases,
}
use custorouter.Worker.{
  Texts, Entry, Fields, Row, decode_entry, fields_of, row_with, decode, Backend, stored_ids,
  insert_rows, Luck, persist_request_log_batch, ack_request_log_entries, run_round, run_rounds,
}

-- The entry was stored, or was logged as malformed.
abbrev pub is_settled : Backend → String → Bool
is_settled w k = elem k (stored_ids w.stored) || elem k w.logged

-- Storing a batch adds its event ids and no other.
elem-insert_rows :
    (k : String) (rs stored : List Row)
    → elem k (stored_ids (insert_rows rs stored))
      ≡ (elem k (stored_ids rs) || elem k (stored_ids stored))
unfolding insert_rows
elem-insert_rows k [] stored = refl
elem-insert_rows k (r ∷ rs) stored = elim (Bool-cases (elem r.event_id (stored_ids stored))) [
  | inl there ↦ ground (arith, elem-insert_rows k rs stored, eq_iff r.event_id k)
  | inr fresh ↦ ground (arith, elem-insert_rows k rs (r ∷ stored))
]

row_with-event_id :
    (i : String) (o : Option Fields) {row : Row} → row_with i o ≡ some row → row.event_id ≡ i
row_with-event_id i none h = absurd (ground arith)
row_with-event_id i (some fields) {row} h = ground arith

decode_entry-event_id :
    (u : Texts) (e : Entry) {row : Row} → decode_entry u e ≡ some row → row.event_id ≡ e.entry_id
unfolding decode_entry
decode_entry-event_id u e h = row_with-event_id e.entry_id (e.payload >>= fields_of u) h

elem-decode :
    (u : Texts) (k : String) (es : List Entry)
    → elem k (decode u es).entry_ids
      ≡ (elem k (stored_ids (decode u es).rows) || elem k (decode u es).discarded)
unfolding decode
elem-decode u k [] = refl
elem-decode u k (e ∷ es) = elim (Option-cases (decode_entry u e)) [
  | inl malformed ↦ ground (arith, elem-decode u k es)
  | inr (row, decoded) ↦
      ground (arith, elem-decode u k es, decode_entry-event_id u e {row = row} decoded)
]

-- Every acknowledged entry is settled.
abbrev pub IsSafe : Backend → Type 0
IsSafe w = (k : String) → elem k w.acked ≡ true → is_settled w k ≡ true

persist_cases :
    (luck : Luck) (rows : List Row) (w : Backend)
    → luck.has_pool ≡ true
    → (persist_request_log_batch luck rows w ≡ none)
      ⊎ (persist_request_log_batch luck rows w
          ≡ some (record w { stored = insert_rows rows w.stored }))
unfolding persist_request_log_batch insert_rows
persist_cases luck [] w up = inr refl
persist_cases luck (r ∷ rs) w up = elim (Bool-cases luck.insert_raises) [
  | inl raises ↦ inl (rw (up, raises) refl)
  | inr fine ↦ inr (rw (up, fine) refl)
]

-- The three ways in which a round ends.
logged-IsSafe :
    (more : List String) (w : Backend) → IsSafe w → IsSafe (record w { logged = more ++ w.logged })
logged-IsSafe more w h k e = ground (arith, h k, elem-append k more w.logged)

stored-IsSafe :
    (rows : List Row) (w : Backend)
    → IsSafe w
    → IsSafe (record w { stored = insert_rows rows w.stored })
stored-IsSafe rows w h k e = ground (arith, h k, elem-insert_rows k rows w.stored)

acked-IsSafe :
    (u : Texts) (es : List Entry) (w : Backend)
    → IsSafe w
    → IsSafe (record w {
      stored = insert_rows (decode u es).rows w.stored;
      logged = (decode u es).discarded ++ w.logged;
      acked = (decode u es).entry_ids ++ w.acked;
    })
acked-IsSafe u es w h k e = ground (
  arith,
  h k,
  elem-append k (decode u es).entry_ids w.acked,
  elem-append k (decode u es).discarded w.logged,
  elem-insert_rows k (decode u es).rows w.stored,
  elem-decode u k es,
)

run_round-IsSafe :
    (u : Texts) (luck : Luck) (es : List Entry) (w : Backend)
    → luck.has_pool ≡ true
    → IsSafe w
    → IsSafe (run_round u luck es w)
unfolding run_round ack_request_log_entries
run_round-IsSafe u luck [] w up h = h
run_round-IsSafe u luck (x ∷ es) w up h =
    let d = decode u (x ∷ es) in
    let noted : Backend = record w { logged = d.discarded ++ w.logged } in
    let still = logged-IsSafe d.discarded w h in
    elim (persist_cases luck d.rows noted up) [
      | inl raised ↦ rw (raised, run_round) still
      | inr kept ↦ elim (Bool-cases luck.ack_raises) [
        | inl lost ↦ rw (kept, run_round, lost) (stored-IsSafe d.rows noted still)
        | inr sent ↦ rw (kept, run_round, sent) (acked-IsSafe u (x ∷ es) w h)
      ]
    ]

abbrev pub AllUp : List (Luck × List Entry) → Type 0
AllUp [] = Unit
AllUp ((luck, entries) ∷ rest) = (luck.has_pool ≡ true) × AllUp rest

-- No entry is lost: over any rounds with a pool of connections, whichever statements and
-- acknowledgements fail and however often an entry comes again, every acknowledged entry was stored
-- under its id or logged as malformed, if that was so at first.
pub run_rounds-IsSafe :
    (u : Texts) (rounds : List (Luck × List Entry)) (w : Backend)
    → AllUp rounds
    → IsSafe w
    → IsSafe (run_rounds u rounds w)
unfolding run_rounds
run_rounds-IsSafe u [] w up h = h
run_rounds-IsSafe u ((luck, entries) ∷ rest) w (up, later) h =
    run_rounds-IsSafe u rest (run_round u luck entries w) later
      (run_round-IsSafe u luck entries w up h)
