-- ===== src/OpenAi/Tools/Laws.antt =====
-- Tools come back as they went (app/translator.py, app/translator_openai.py).
use custorouter.Common.{
  ◌≡◌, refl, Bool, true, false, ◌&&◌, Option, none, some, String, List, [], ◌∷◌, or_else, nonempty,
  str_eq, map, all, arith, ◌||◌, if◌then◌else◌, ◌>>=◌, eq_iff, false,
}
use custorouter.Common.Json.{empty_object}
use custorouter.OpenAi.Tools.{
  Tool, ToolChoice, convert_tools, openai_tools_to_anthropic, tool_choice_to_openai,
  openai_tool_choice_to_anthropic,
}

-- With the defaults of the keys that are missing.
abbrev pub completed : Tool → Tool
completed t = record t {
  description = some (or_else t.description "");
  input_schema = some (or_else t.input_schema empty_object);
}

-- Tools that have a name survive the way to OpenAI's shape and back, in their order and with nothing
-- dropped: a description and a schema that were missing are then empty, and all else is as it was, the
-- `strict` flag included.
pub openai_tools_to_anthropic-convert_tools :
    (ts : List Tool)
    → all (λ t. nonempty t.name) ts ≡ true
    → openai_tools_to_anthropic (convert_tools ts) ≡ map completed ts
unfolding openai_tools_to_anthropic convert_tools
openai_tools_to_anthropic-convert_tools [] h = refl
openai_tools_to_anthropic-convert_tools (t ∷ ts) h =
    ground (arith, openai_tools_to_anthropic-convert_tools ts)

abbrev is_bare : ToolChoice → Bool
is_bare tc = str_eq tc.kind "auto" || str_eq tc.kind "any" || str_eq tc.kind "none"

-- The four choices that Anthropic knows, a tool's with its name.
abbrev pub is_choice : ToolChoice → Bool
is_choice tc = is_bare tc || (str_eq tc.kind "tool" && nonempty (or_else tc.name ""))

-- The choice alone: the flag on parallel calls travels beside it, and only a tool has a name.
abbrev pub choice_alone : ToolChoice → ToolChoice
choice_alone tc = record tc {
  disable_parallel = false;
  name = if is_bare tc then none else tc.name;
}

by_kind :
    (kind : String) (name : Option String) (flag : Bool)
    → is_choice (record { kind = kind; name = name; disable_parallel = flag }) ≡ true
    → (tool_choice_to_openai (record { kind = kind; name = name; disable_parallel = flag })
        >>= openai_tool_choice_to_anthropic)
      ≡ some (choice_alone (record { kind = kind; name = name; disable_parallel = flag }))
unfolding tool_choice_to_openai openai_tool_choice_to_anthropic
by_kind kind none flag h = ground (arith, eq_iff kind "auto", eq_iff kind "any", eq_iff kind "none")
by_kind kind (some name) flag h =
    ground (arith, eq_iff kind "auto", eq_iff kind "any", eq_iff kind "none", eq_iff kind "tool")

-- A choice that Anthropic knows survives the way to OpenAI's words and back.
pub openai_tool_choice_to_anthropic-to_openai :
    (tc : ToolChoice)
    → is_choice tc ≡ true
    → (tool_choice_to_openai tc >>= openai_tool_choice_to_anthropic) ≡ some (choice_alone tc)
openai_tool_choice_to_anthropic-to_openai tc h = by_kind tc.kind tc.name tc.disable_parallel h
