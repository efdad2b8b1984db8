-- ===== src/Worker.antt =====
-- app/request_log_worker.py: the decoding of queue entries and the rounds of the worker, with
-- app/database.py: `persist_request_log_batch`.
--
-- A payload stands as what `json.loads` makes of it; the text of a value that is no text and the
-- number in a text are parameters.
pub mod Laws
mod Tests
use custorouter.Common.{
  ◌>>=◌, ℕ, Bool, true, false, not, ◌&&◌, ◌||◌, Option, none, some, String, List, [], ◌∷◌, ◌++◌,
  ◌==◌, if◌then◌else◌, is_empty, elem, map, Dict, lookup, str_eq, nonempty, snoc,
}

-- `other` is a list or an object, with its truth.
pub data Value : Type 0 where
  null : Value
  flag : Bool → Value
  number : ℕ → Value
  text : String → Value
  other : Bool → Value

-- The payload is missing where the field is missing, is no JSON, or is no object.
pub record Entry : Type 0 where
  pub entry_id : String
  pub payload : Option (Dict Value)

pub record Fields : Type 0 where
  pub model : String
  pub status_code : ℕ
  pub key_prefix : String
  pub rotated : Bool
  pub latency_ms : ℕ
  pub input_tokens : ℕ
  pub output_tokens : ℕ
  pub cached_tokens : ℕ
  pub provider : String

-- A row carries the id of its entry as its event id.
pub record Row : Type 0 where
  pub event_id : String
  pub fields : Fields

pub record Texts : Type 0 where
  pub shown : Value → String
  pub parsed : String → Option ℕ

-- `str(v)`, `int(v)` and `bool(v)`
abbrev pub str_of : Texts → Value → String
str_of u (text s) = s
str_of u v = u.shown v

abbrev pub int_of : Texts → Value → Option ℕ
int_of u (number n) = some n
int_of u (flag true) = some 1
int_of u (flag false) = some 0
int_of u (text s) = u.parsed s
int_of u _ = none

abbrev pub truth_of : Value → Bool
truth_of null = false
truth_of (flag b) = b
truth_of (number n) = not (n == 0)
truth_of (text s) = nonempty s
truth_of (other b) = b

-- `int(payload.get(name, 0))`
abbrev pub count_of : Texts → String → Dict Value → Option ℕ
count_of u name d = elim (lookup name d) [ none ↦ some 0 | some v ↦ int_of u v ]

-- `str(payload.get("provider") or "")`
abbrev pub provider_of : Texts → Dict Value → String
provider_of u d = elim (lookup "provider" d) [
  | none ↦ ""
  | some v ↦ if truth_of v then str_of u v else ""
]

unfoldable pub fields_of : Texts → Dict Value → Option Fields
fields_of u d = do
  model ← lookup "model" d
  status ← lookup "status_code" d
  status_code ← int_of u status
  key_prefix ← lookup "key_prefix" d
  rotated ← lookup "rotated" d
  latency ← lookup "latency_ms" d
  latency_ms ← int_of u latency
  input_tokens ← count_of u "input_tokens" d
  output_tokens ← count_of u "output_tokens" d
  cached_tokens ← count_of u "cached_tokens" d
  some (record {
    model = str_of u model;
    status_code = status_code;
    key_prefix = str_of u key_prefix;
    rotated = truth_of rotated;
    latency_ms = latency_ms;
    input_tokens = input_tokens;
    output_tokens = output_tokens;
    cached_tokens = cached_tokens;
    provider = provider_of u d;
  })

abbrev pub row_with : String → Option Fields → Option Row
row_with entry_id none = none
row_with entry_id (some fields) = some (record { event_id = entry_id; fields = fields })

unfoldable pub decode_entry : Texts → Entry → Option Row
unfolding fields_of
decode_entry u e = row_with e.entry_id (e.payload >>= fields_of u)

-- The rows, the ids to acknowledge, and the ids that were logged as malformed.
pub record Decoded : Type 0 where
  pub rows : List Row
  pub entry_ids : List String
  pub discarded : List String

abbrev pub add_entry : Entry → Option Row → Decoded → Decoded
add_entry e (some row) d = record d { rows = row ∷ d.rows; entry_ids = e.entry_id ∷ d.entry_ids }
add_entry e none d = record d {
  entry_ids = e.entry_id ∷ d.entry_ids;
  discarded = e.entry_id ∷ d.discarded;
}

unfoldable pub decode : Texts → List Entry → Decoded
unfolding decode_entry
decode u [] = record { rows = []; entry_ids = []; discarded = [] }
decode u (e ∷ es) = add_entry e (decode_entry u e) (decode u es)

-- Postgres with the unique event id, what Redis has acknowledged, and the log of malformed entries.
pub record Backend : Type 0 where
  pub stored : List Row
  pub acked : List String
  pub logged : List String

abbrev pub stored_ids : List Row → List String
stored_ids [] = []
stored_ids (r ∷ rs) = r.event_id ∷ stored_ids rs

-- INSERT … ON CONFLICT (event_id) DO NOTHING, for every record of the batch.
unfoldable pub insert_rows : List Row → List Row → List Row
insert_rows [] stored = stored
insert_rows (r ∷ rs) stored =
    insert_rows rs (if elem r.event_id (stored_ids stored) then stored else r ∷ stored)

-- What goes wrong in a round: whether there is a pool of connections, and whether the statement, which
-- is one transaction, and the acknowledgement raise.
pub record Luck : Type 0 where
  pub has_pool : Bool
  pub insert_raises : Bool
  pub ack_raises : Bool

-- `persist_request_log_batch`; no answer where it raises.
unfoldable pub persist_request_log_batch : Luck → List Row → Backend → Option Backend
unfolding insert_rows
persist_request_log_batch luck rows w =
    if is_empty rows || not luck.has_pool
    then some w
    else if luck.insert_raises
    then none
    else some (record w { stored = insert_rows rows w.stored })

unfoldable pub ack_request_log_entries : Luck → List String → Backend → Backend
ack_request_log_entries luck ids w =
    if luck.ack_raises then w else record w { acked = ids ++ w.acked }

-- One round of the worker over the entries that it claimed or read.
pub run_round : Texts → Luck → List Entry → Backend → Backend
unfolding decode persist_request_log_batch ack_request_log_entries
run_round u luck [] w = w
run_round u luck (e ∷ es) w =
    let d = decode u (e ∷ es) in
    let logged = record w { logged = d.discarded ++ w.logged } in
    elim (persist_request_log_batch luck d.rows logged) [
      | none ↦ logged
      | some v ↦ ack_request_log_entries luck d.entry_ids v
    ]

-- Any number of rounds; an entry that was not acknowledged may come again.
pub run_rounds : Texts → List (Luck × List Entry) → Backend → Backend
unfolding run_round
run_rounds u [] w = w
run_rounds u ((luck, entries) ∷ rest) w = run_rounds u rest (run_round u luck entries w)
