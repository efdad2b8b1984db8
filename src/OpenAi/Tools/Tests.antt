-- ===== src/OpenAi/Tools/Tests.antt =====
-- Tools at concrete inputs (app/translator.py, app/translator_openai.py).
use custorouter.Common.{◌≡◌, refl, false, none, some, List, [], ◌∷◌, map}
use custorouter.OpenAi.Tools.{Tool, ToolChoice, convert_tools, openai_tools_to_anthropic}
use custorouter.OpenAi.Tools.Laws.{completed, openai_tools_to_anthropic-convert_tools}

abbrev tools : List Tool
tools = record { name = "f"; description = none; input_schema = none; strict = none } ∷ []

openai_tools_to_anthropic-convert_tools_example :
    openai_tools_to_anthropic (convert_tools tools) ≡ map completed tools
openai_tools_to_anthropic-convert_tools_example = openai_tools_to_anthropic-convert_tools tools refl

abbrev choice : ToolChoice
choice = record { kind = "tool"; name = some "f"; disable_parallel = false }
