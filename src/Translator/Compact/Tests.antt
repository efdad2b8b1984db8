-- ===== src/Translator/Compact/Tests.antt =====
-- Runs of `compact_messages` (app/translator.py).
use custorouter.Common.{
  ◌<◌, ◌≤◌, ◌≡◌, ◌⊎◌, refl, none, some, String, List, [], ◌∷◌, length, keep, not,
}
use custorouter.Translator.Compact.{Msg, has_role, compact_messages}
use custorouter.Translator.Compact.Laws.{IsCompacted, compact_messages_lem}

abbrev said : String → String → Msg
said role body = record { role = role; tool_calls = none; tool_call_id = none; body = body }

abbrev chat : List Msg
chat =
    said "system" "s"
    ∷ said "user" "a"
    ∷ record {
      role = "assistant";
      tool_calls = some (some "t" ∷ []);
      tool_call_id = none;
      body = "";
    }
    ∷ said "user" "b"
    ∷ record { role = "tool"; tool_calls = none; tool_call_id = some "t"; body = "" }
    ∷ record { role = "tool"; tool_calls = none; tool_call_id = some "gone"; body = "" }
    ∷ []

-- The cut at `b` moves back to the call of `t`, and the answer to a call that is nowhere goes.
compacted_chat :
    compact_messages chat 3
    ≡ some (
        said "system" "s"
        ∷ record {
          role = "assistant";
          tool_calls = some (some "t" ∷ []);
          tool_call_id = none;
          body = "";
        }
        ∷ said "user" "b"
        ∷ record { role = "tool"; tool_calls = none; tool_call_id = some "t"; body = "" }
        ∷ [])
unfolding compact_messages
compacted_chat = refl

compact_messages_example :
    (result : List Msg) × (compact_messages chat 3 ≡ some result)
    × (((length (keep (λ m. not (has_role "system" m)) chat) ≤ 3) × (result ≡ chat))
        ⊎ ((3 < length (keep (λ m. not (has_role "system" m)) chat)) × IsCompacted chat result))
compact_messages_example = compact_messages_lem chat 3 refl
