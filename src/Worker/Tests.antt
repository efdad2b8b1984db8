-- ===== src/Worker/Tests.antt =====
-- Tests and examples of the request-log worker (app/request_log_worker.py).
use custorouter.Common.{◌≡◌, refl, true, false, none, some, [], ◌∷◌, lookup, arith}
use custorouter.Worker.{
  number, text, flag, Entry, Texts, Backend, Luck, decode, decode_entry, fields_of, run_rounds,
}
use custorouter.Worker.Laws.{IsSafe, run_rounds-IsSafe}

abbrev plain : Texts
plain = record { shown = λ v. ""; parsed = λ s. none }

abbrev good : Entry
good = record {
  entry_id = "1-0";
  payload = some (
      ("model", text "m")
      ∷ ("status_code", number 200)
      ∷ ("key_prefix", text "k...")
      ∷ ("rotated", flag false)
      ∷ ("latency_ms", number 7)
      ∷ []);
}

abbrev bad : Entry
bad = record { entry_id = "2-0"; payload = none }

abbrev fine : Luck
fine = record { has_pool = true; insert_raises = false; ack_raises = false }

abbrev nothing : Backend
nothing = record { stored = []; acked = []; logged = [] }

decoded_ids : (decode plain (good ∷ bad ∷ [])).entry_ids ≡ "1-0" ∷ "2-0" ∷ []
unfolding decode decode_entry fields_of lookup
decoded_ids = refl

malformed_is_logged : (decode plain (good ∷ bad ∷ [])).discarded ≡ "2-0" ∷ []
unfolding decode decode_entry fields_of lookup
malformed_is_logged = refl

run_rounds-IsSafe_example : IsSafe (
    run_rounds plain
      ((record fine { ack_raises = true }, good ∷ []) ∷ (fine, good ∷ bad ∷ []) ∷ [])
      nothing)
run_rounds-IsSafe_example =
    run_rounds-IsSafe plain
      ((record fine { ack_raises = true }, good ∷ []) ∷ (fine, good ∷ bad ∷ []) ∷ []) nothing
      (refl, (refl, tt)) (λ k e. absurd (ground arith))
