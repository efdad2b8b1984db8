-- ===== src/OpenAi/Messages/Tests.antt =====
-- Runs of `openai_to_anthropic_messages` (app/translator_openai.py).
use custorouter.Common.{
  ℕ, ◌≡◌, refl, true, false, Option, none, some, String, List, [], ◌∷◌, split_once, has_prefix,
}
use custorouter.Common.Json.{Json, empty_object}
use custorouter.OpenAi.Messages.{
  Msg, Content, Part, Arguments, Block, Body, openai_to_anthropic_messages,
}
use custorouter.OpenAi.Messages.Laws.{results_of, results_in, openai_to_anthropic_messages-results}
use custorouter.OpenAi.Messages.Groups.{are_separate, openai_to_anthropic_messages-separate}

abbrev no_json : String → Option Json
no_json s = none

abbrev fixed_id : ℕ → ℕ → String
fixed_id i j = "toolu_0"

abbrev message : String → Content → Msg
message role content = record {
  role = some role;
  content = content;
  tool_calls = [];
  tool_call_id = none;
}

abbrev answer : String → Msg
answer i = record {
  role = some "tool";
  content = Content.text "ok";
  tool_calls = [];
  tool_call_id = some i;
}

abbrev calling : Msg
calling = record {
  role = some "assistant";
  content = Content.null;
  tool_calls =
      record { id = some "a"; name = some "f"; arguments = some (Arguments.encoded "broken") }
      ∷ record { id = none; name = some "g"; arguments = none }
      ∷ [];
  tool_call_id = none;
}

abbrev picture : Msg
picture = message "user" (
    Content.parts (
      Part.object (some "image_url") none (some "data:image/png;base64,QUJD")
      ∷ Part.object (some "text") (some "what?") none
      ∷ []))

abbrev chat : List Msg
chat = message "system" (Content.text "s") ∷ calling ∷ answer "a" ∷ answer "b" ∷ picture ∷ []

converted_chat : openai_to_anthropic_messages no_json fixed_id chat ≡ (
  some "s",
  record {
    role = "assistant";
    body =
        Body.blocks
          (Block.tool_use "a" "f" empty_object ∷ Block.tool_use "toolu_0" "g" empty_object ∷ []);
  }
      ∷ record {
        role = "user";
        body = Body.blocks (
            Block.tool_result "a" (Content.text "ok")
            ∷ Block.tool_result "b" (Content.text "ok")
            ∷ []);
      }
      ∷ record {
        role = "user";
        body =
            Body.blocks (Block.image "image/png" "QUJD" ∷ Block.text (Content.text "what?") ∷ []);
      }
      ∷ [],
)
unfolding openai_to_anthropic_messages has_prefix split_once
converted_chat = refl

openai_to_anthropic_messages-results_example :
    results_of (openai_to_anthropic_messages no_json fixed_id chat).1 ≡ results_in chat
openai_to_anthropic_messages-results_example =
    openai_to_anthropic_messages-results no_json fixed_id chat

openai_to_anthropic_messages-separate_example :
    are_separate (openai_to_anthropic_messages no_json fixed_id chat).1 ≡ true
unfolding openai_to_anthropic_messages
openai_to_anthropic_messages-separate_example =
    openai_to_anthropic_messages-separate no_json fixed_id chat refl

-- A system message between two results parts them into two turns of the user in a row.
parted_results :
    are_separate
      (openai_to_anthropic_messages no_json fixed_id
        (answer "a" ∷ message "system" (Content.text "s") ∷ answer "b" ∷ [])).1
    ≡ false
unfolding openai_to_anthropic_messages
parted_results = refl
