-- ===== src/Translator/Turns/Tests.antt =====
-- Turns at concrete inputs (app/translator.py).
use custorouter.Common.{◌≡◌, refl, none, some, List, [], ◌∷◌}
use custorouter.OpenAi.Messages.{Content, Part, openai_to_anthropic_messages}
use custorouter.OpenAi.Messages.Laws.{results_of}
use custorouter.Translator.Turns.{Source, Object, Block, Said, Turn, to_openai_messages}
use custorouter.Translator.Turns.Laws.{given_of, openai_to_anthropic_messages-to_openai_messages}

abbrev no_source : Source
no_source = record { kind = none; media_type = none; payload = none; url = none }

abbrev result : Object
result = record {
  kind = some "tool_result";
  text = none;
  id = none;
  name = "";
  input = none;
  tool_use_id = some "t1";
  content = Content.parts (Part.object (some "text") (some "42") none ∷ Part.word "ok" ∷ []);
  source = no_source;
}

abbrev turns : List Turn
turns =
    record { role = "user"; said = Said.plain "hi" }
    ∷ record { role = "user"; said = Said.blocks (Block.object result ∷ Block.word "x" ∷ []) }
    ∷ []

openai_to_anthropic_messages-to_openai_messages_example :
    results_of
      (openai_to_anthropic_messages
        (λ t. none)
        (λ i j. "n")
        (to_openai_messages (λ v. "{}") (λ i j. "n") (Said.plain "be brief") turns)).1
    ≡ given_of turns
openai_to_anthropic_messages-to_openai_messages_example =
    openai_to_anthropic_messages-to_openai_messages (λ v. "{}") (λ i j. "n") (λ t. none)
      (λ i j. "n") (Said.plain "be brief") turns (refl, (refl, tt))
