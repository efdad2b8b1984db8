-- ===== src/OpenAi/Tools.antt =====
-- Tools and tool choices, in both directions: `convert_tools` and the `tool_choice` of
-- `build_openai_request` (app/translator.py), `openai_tools_to_anthropic` and
-- `openai_tool_choice_to_anthropic` (app/translator_openai.py).
pub mod Laws
mod Tests
use custorouter.Common.{
  Bool, true, false, Option, none, some, String, List, [], ◌∷◌, or_else, nonempty, str_eq, map,
  if◌then◌else◌,
}
use custorouter.Common.Json.{Json, empty_object}

-- A tool of an Anthropic request; a key that is missing is none.
pub record Tool : Type 0 where
  pub name : String
  pub description : Option String
  pub input_schema : Option Json
  pub strict : Option Json

-- The `function` of an OpenAI tool.
pub record Function : Type 0 where
  pub name : Option String
  pub description : Option String
  pub parameters : Option Json
  pub strict : Option Json

-- With a `function` of its own, or flat; or no object at all.
pub data OpenAiTool : Type 0 where
  wrapped : Function → OpenAiTool
  flat : Function → OpenAiTool
  no_object : OpenAiTool

unfoldable pub convert_tool : Tool → OpenAiTool
convert_tool t = OpenAiTool.wrapped (record {
  name = some t.name;
  description = some (or_else t.description "");
  parameters = some (or_else t.input_schema empty_object);
  strict = t.strict;
})

unfoldable pub convert_tools : List Tool → List OpenAiTool
unfolding convert_tool
convert_tools [] = []
convert_tools (t ∷ ts) = convert_tool t ∷ convert_tools ts

abbrev pub function_of : OpenAiTool → Option Function
function_of (OpenAiTool.wrapped fn) = some fn
function_of (OpenAiTool.flat fn) = some fn
function_of OpenAiTool.no_object = none

unfoldable pub tool_of : Function → Option Tool
tool_of fn = elim fn.name [
  | none ↦ none
  | some name ↦
      if nonempty name
      then some (record {
        name = name;
        description = some (or_else fn.description "");
        input_schema = some (or_else fn.parameters empty_object);
        strict = fn.strict;
      })
      else none
]

-- A tool without a name is dropped.
unfoldable pub openai_tools_to_anthropic : List OpenAiTool → List Tool
unfolding tool_of
openai_tools_to_anthropic [] = []
openai_tools_to_anthropic (t ∷ ts) =
    let rest = openai_tools_to_anthropic ts in
    elim (function_of t) [
      | none ↦ rest
      | some fn ↦ elim (tool_of fn) [ none ↦ rest | some tool ↦ tool ∷ rest ]
    ]

-- `tool_choice` of an Anthropic request: its type, the name of a `tool`, and whether
-- `disable_parallel_tool_use` is true.
pub record ToolChoice : Type 0 where
  pub kind : String
  pub name : Option String
  pub disable_parallel : Bool

pub data OpenAiChoice : Type 0 where
  word : String → OpenAiChoice
  function : Option String → OpenAiChoice
  other : OpenAiChoice

-- What `build_openai_request` sets. A choice of a `tool` without a name raises, which has no answer.
unfoldable pub tool_choice_to_openai : ToolChoice → Option (Option OpenAiChoice)
tool_choice_to_openai tc =
    if str_eq tc.kind "auto"
    then some (some (OpenAiChoice.word "auto"))
    else if str_eq tc.kind "any"
    then some (some (OpenAiChoice.word "required"))
    else if str_eq tc.kind "none"
    then some (some (OpenAiChoice.word "none"))
    else if str_eq tc.kind "tool"
    then elim tc.name [ none ↦ none | some n ↦ some (some (OpenAiChoice.function (some n))) ]
    else some none

abbrev choice_of : String → Option String → ToolChoice
choice_of kind name = record { kind = kind; name = name; disable_parallel = false }

unfoldable pub openai_tool_choice_to_anthropic : Option OpenAiChoice → Option ToolChoice
openai_tool_choice_to_anthropic none = none
openai_tool_choice_to_anthropic (some (OpenAiChoice.word w)) =
    if str_eq w "auto"
    then some (choice_of "auto" none)
    else if str_eq w "required"
    then some (choice_of "any" none)
    else if str_eq w "none"
    then some (choice_of "none" none)
    else none
openai_tool_choice_to_anthropic (some (OpenAiChoice.function none)) = none
openai_tool_choice_to_anthropic (some (OpenAiChoice.function (some name))) =
    if nonempty name then some (choice_of "tool" (some name)) else none
openai_tool_choice_to_anthropic (some OpenAiChoice.other) = none
