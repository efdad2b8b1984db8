-- ===== src/Translator/Turns.antt =====
-- `to_openai_messages` and `flatten_content` of app/translator.py.
--
-- `dumps` is `json.dumps`, and `new_id` the random id of a call that has none, by its turn and its
-- place there. The content of a result is of the same type as that of an OpenAI message.
pub mod Laws
mod Tests
use custorouter.Common.{
  ℕ, suc, ◌+◌, Bool, true, false, ◌&&◌, Option, none, some, String, List, [], ◌∷◌, ◌++◌, or_else,
  nonempty, str_eq, if◌then◌else◌, is_empty, join,
}
use custorouter.Common.Json.{Json, empty_object}
use custorouter.Keys.Add.{◌+text+◌}
use custorouter.OpenAi.Messages.{Part, Content, Arguments, Call, Msg}

-- The `source` of an image.
pub record Source : Type 0 where
  pub kind : Option String
  pub media_type : Option String
  pub payload : Option String
  pub url : Option String

-- A block that is an object, with the keys that are read of any of them.
pub record Object : Type 0 where
  pub kind : Option String
  pub text : Option String
  pub id : Option String
  pub name : String
  pub input : Option Json
  pub tool_use_id : Option String
  pub content : Content
  pub source : Source

pub data Block : Type 0 where
  word : String → Block
  other : Block
  object : Object → Block

pub data Said : Type 0 where
  null : Said
  plain : String → Said
  blocks : List Block → Said

pub record Turn : Type 0 where
  pub role : String
  pub said : Said

abbrev pub is_kind : String → Object → Bool
is_kind kind o = str_eq (or_else o.kind "") kind

abbrev if_some : String → List String → List String
if_some t ts = if nonempty t then t ∷ ts else ts

-- `flatten_content` of a result: the texts that are not empty, one on each line.
unfoldable pub part_lines : List Part → List String
part_lines [] = []
part_lines (Part.object kind text url ∷ ps) = if_some (or_else text "") (part_lines ps)
part_lines (Part.word t ∷ ps) = if_some t (part_lines ps)
part_lines (Part.other shown ∷ ps) = part_lines ps

unfoldable pub flatten_content : Content → String
unfolding part_lines
flatten_content Content.null = ""
flatten_content (Content.text t) = t
flatten_content (Content.parts ps) = join "\n" (part_lines ps)

unfoldable pub block_lines : List Block → List String
block_lines [] = []
block_lines (Block.word t ∷ bs) = if_some t (block_lines bs)
block_lines (Block.other ∷ bs) = block_lines bs
block_lines (Block.object o ∷ bs) = if_some (or_else o.text "") (block_lines bs)

-- `flatten_content` of a turn.
unfoldable pub flatten_said : Said → String
unfolding block_lines
flatten_said Said.null = ""
flatten_said (Said.plain t) = t
flatten_said (Said.blocks bs) = join "\n" (block_lines bs)

abbrev pub say : String → Content → Msg
say role content = record {
  role = some role;
  content = content;
  tool_calls = [];
  tool_call_id = none;
}

-- The texts of an assistant's turn that has calls.
unfoldable pub spoken : List Block → List String
spoken [] = []
spoken (Block.object o ∷ bs) =
    let rest = spoken bs in if is_kind "text" o then if_some (or_else o.text "") rest else rest
spoken (_ ∷ bs) = spoken bs

unfoldable pub image_parts : Source → List Part
image_parts source =
    if str_eq (or_else source.kind "") "base64"
    then Part.object (some "image_url") none (
        some (
          "data:"
          +text+ or_else source.media_type "image/jpeg"
          +text+ ";base64,"
          +text+ or_else source.payload ""))
      ∷ []
    else if str_eq (or_else source.kind "") "url" && nonempty (or_else source.url "")
    then Part.object (some "image_url") none source.url ∷ []
    else []

-- What a user's block adds to the content of the message.
unfoldable pub shown_parts : Object → List Part
unfolding image_parts
shown_parts o =
    if is_kind "tool_result" o
    then []
    else if is_kind "image" o
    then image_parts o.source
    else if nonempty (or_else o.text "")
    then Part.object (some "text") o.text none ∷ []
    else []

unfoldable pub final_content : List Block → List Part
unfolding shown_parts
final_content [] = []
final_content (Block.object o ∷ bs) = shown_parts o ++ final_content bs
final_content (_ ∷ bs) = final_content bs

unfoldable pub tool_results : List Block → List Msg
unfolding flatten_content
tool_results [] = []
tool_results (Block.object o ∷ bs) =
    let rest = tool_results bs in
    if is_kind "tool_result" o
    then record {
      role = some "tool";
      content = Content.text (flatten_content o.content);
      tool_calls = [];
      tool_call_id = some (or_else o.tool_use_id "");
    }
      ∷ rest
    else rest
tool_results (_ ∷ bs) = tool_results bs

unfoldable pub user_messages : List Block → List Msg
unfolding tool_results final_content flatten_said
user_messages bs =
    let results = tool_results bs in
    let content = final_content bs in
    if is_empty results
    then say "user" (
        if is_empty content
        then Content.text (flatten_said (Said.blocks bs))
        else Content.parts content)
      ∷ []
    else results ++ (if is_empty content then [] else say "user" (Content.parts content) ∷ [])

module _ (dumps : Json → String) (new_id : ℕ → ℕ → String) where
  unfoldable pub tool_calls : ℕ → ℕ → List Block → List Call
  tool_calls turn place [] = []
  tool_calls turn place (Block.object o ∷ bs) =
      let rest = tool_calls turn (suc place) bs in
      if is_kind "tool_use" o
      then record {
        id = some (or_else o.id (new_id turn place));
        name = some o.name;
        arguments = some (Arguments.encoded (dumps (or_else o.input empty_object)));
      }
        ∷ rest
      else rest
  tool_calls turn place (_ ∷ bs) = tool_calls turn (suc place) bs

  -- Without texts the message of the calls has no content.
  unfoldable pub assistant_message : ℕ → List Block → Msg
  unfolding tool_calls spoken flatten_said
  assistant_message turn bs =
      let calls = tool_calls turn 0 bs in
      if is_empty calls
      then say "assistant" (Content.text (flatten_said (Said.blocks bs)))
      else record {
        role = some "assistant";
        content = Content.text (join " " (spoken bs));
        tool_calls = calls;
        tool_call_id = none;
      }

  abbrev turn_blocks : ℕ → String → List Block → List Msg
  turn_blocks i role bs =
      if str_eq role "assistant"
      then assistant_message i bs ∷ []
      else if str_eq role "user"
      then user_messages bs
      else say role (Content.text (flatten_said (Said.blocks bs))) ∷ []

  unfoldable pub turn_messages : ℕ → Turn → List Msg
  unfolding assistant_message user_messages flatten_said
  turn_messages i t = elim t.said [
    | Said.null ↦ say t.role (Content.text "") ∷ []
    | Said.plain text ↦ say t.role (Content.text text) ∷ []
    | Said.blocks bs ↦ turn_blocks i t.role bs
  ]

  unfoldable pub all_messages : ℕ → List Turn → List Msg
  unfolding turn_messages
  all_messages i [] = []
  all_messages i (t ∷ ts) = turn_messages i t ++ all_messages (suc i) ts

  -- An empty system prompt is none.
  unfoldable pub to_openai_messages : Said → List Turn → List Msg
  unfolding flatten_said all_messages
  to_openai_messages system turns =
      let rest = all_messages 0 turns in
      elim system [
        | Said.null ↦ rest
        | Said.plain text ↦ if nonempty text then say "system" (Content.text text) ∷ rest else rest
        | Said.blocks bs ↦
            if is_empty bs
            then rest
            else say "system" (Content.text (flatten_said (Said.blocks bs))) ∷ rest
      ]
