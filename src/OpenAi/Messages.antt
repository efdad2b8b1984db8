-- ===== src/OpenAi/Messages.antt =====
-- `openai_to_anthropic_messages` of app/translator_openai.py.
--
-- `loads` is `json.loads`, with no answer where that raises; `new_id` is the random id of a call
-- that has none, by its message and its place there.
pub mod Laws
pub mod Groups
mod Tests
use custorouter.Common.{
  ℕ, zero, suc, ◌+◌, Bool, true, false, not, ◌&&◌, ◌||◌, Option, none, some, String, List, [], ◌∷◌,
  ◌++◌, or_else, nonempty, str_eq, if◌then◌else◌, is_empty, snoc, has_prefix, split_once, join,
  drop_text,
}
use custorouter.Common.Json.{Json, empty_object, is_object}
use Prim.Native.String

-- An item of a list content: an object with its `type`, its `text` and the `url` in its `image_url`; a
-- text; anything else, as `str` shows it.
pub data Part : Type 0 where
  object : Option String → Option String → Option String → Part
  word : String → Part
  other : String → Part

pub data Content : Type 0 where
  null : Content
  text : String → Content
  parts : List Part → Content

-- The `arguments` of a call: a text, or a value already.
pub data Arguments : Type 0 where
  encoded : String → Arguments
  decoded : Json → Arguments

pub record Call : Type 0 where
  pub id : Option String
  pub name : Option String
  pub arguments : Option Arguments

-- A message; `content` is the empty text where the key is missing, and `tool_calls` empty.
pub record Msg : Type 0 where
  pub role : Option String
  pub content : Content
  pub tool_calls : List Call
  pub tool_call_id : Option String

pub data Block : Type 0 where
  text : Content → Block
  tool_use : String → String → Json → Block
  tool_result : String → Content → Block
  image : String → String → Block

-- The content of an Anthropic message: as it came, or blocks.
pub data Body : Type 0 where
  raw : Content → Body
  blocks : List Block → Body

pub record Turn : Type 0 where
  pub role : String
  pub body : Body

pub record Conversion : Type 0 where
  pub system_prompt : Option String
  pub turns : List Turn
  pub pending : List Block

-- `bool(content)`
abbrev pub is_truthy : Content → Bool
is_truthy Content.null = false
is_truthy (Content.text t) = nonempty t
is_truthy (Content.parts ps) = not (is_empty ps)

unfoldable pub flush_tool_results : Conversion → Conversion
flush_tool_results c = if is_empty c.pending then c else record c {
  turns = snoc c.turns (record { role = "user"; body = Body.blocks c.pending });
  pending = [];
}

unfoldable pub part_text : Part → String
part_text (Part.object _ t _) = or_else t ""
part_text (Part.word t) = t
part_text (Part.other shown) = shown

unfoldable pub part_texts : List Part → List String
unfolding part_text
part_texts [] = []
part_texts (p ∷ ps) = part_text p ∷ part_texts ps

unfoldable pub read_system : Content → Conversion → Conversion
unfolding part_texts
read_system Content.null c = c
read_system (Content.text t) c = record c { system_prompt = some t }
read_system (Content.parts ps) c = record c { system_prompt = some (join " " (part_texts ps)) }

-- `s.replace("data:", "")`; of a hit, the letters behind its first one are skipped.
unfoldable pub drop_scheme : ℕ → String → String
drop_scheme skip String.[] = String.[]
drop_scheme (suc skip) (String.◌∷◌ c s) = drop_scheme skip s
drop_scheme zero (String.◌∷◌ c s) =
    let hit = has_prefix (String.◌∷◌ c s) "data:" in
    let rest = drop_scheme (if hit then 4 else 0) s in if hit then rest else String.◌∷◌ c rest

-- A data URL becomes an image; any other URL is dropped.
unfoldable pub image_blocks : String → List Block
unfolding drop_scheme
image_blocks url =
    let (head, payload) = split_once b',' url in
    if has_prefix url "data:"
    then elim payload [
      | none ↦ []
      | some base64 ↦ Block.image (drop_scheme 0 (split_once b';' head).0) base64 ∷ []
    ]
    else []

unfoldable pub part_blocks : Part → List Block
unfolding image_blocks
part_blocks (Part.object kind t url) =
    if str_eq (or_else kind "") "text"
    then Block.text (Content.text (or_else t "")) ∷ []
    else if str_eq (or_else kind "") "image_url"
    then image_blocks (or_else url "")
    else []
part_blocks (Part.word t) = Block.text (Content.text t) ∷ []
part_blocks (Part.other shown) = []

unfoldable pub user_blocks : List Part → List Block
unfolding part_blocks
user_blocks [] = []
user_blocks (p ∷ ps) = part_blocks p ++ user_blocks ps

abbrev user_turn : Body → Turn
user_turn body = record { role = "user"; body = body }

-- A content that is neither a text nor a list makes no turn.
unfoldable pub user_turns : Content → List Turn
unfolding user_blocks
user_turns Content.null = []
user_turns (Content.text t) = user_turn (Body.raw (Content.text t)) ∷ []
user_turns (Content.parts ps) =
    let bs = user_blocks ps in
    user_turn (if is_empty bs then Body.raw (Content.text "") else Body.blocks bs) ∷ []

-- The content in front of the calls, as it came.
abbrev pub leading : Content → List Block
leading content = if is_truthy content then Block.text content ∷ [] else []

-- The branches of the loop.
pub data Role : Type 0 where
  system : Role
  assistant : Role
  tool : Role
  user : Role
  unknown : Role

unfoldable pub role_of : String → Role
role_of r =
    if str_eq r "system"
    then Role.system
    else if str_eq r "assistant"
    then Role.assistant
    else if str_eq r "tool"
    then Role.tool
    else if str_eq r "user"
    then Role.user
    else Role.unknown

module _ (loads : String → Option Json) where
  -- A history that cannot be decoded, or is no object, is an empty one.
  unfoldable pub decode_input : Option Arguments → Json
  decode_input arguments = elim (or_else arguments (Arguments.encoded "{}")) [
    | Arguments.encoded t ↦
        let v = or_else (loads t) empty_object in if is_object v then v else empty_object
    | Arguments.decoded v ↦ if is_object v then v else empty_object
  ]

  unfoldable pub tool_uses : (ℕ → String) → ℕ → List Call → List Block
  unfolding decode_input
  tool_uses new_id i [] = []
  tool_uses new_id i (c ∷ cs) =
      Block.tool_use (or_else c.id (new_id i)) (or_else c.name "") (decode_input c.arguments)
      ∷ tool_uses new_id (suc i) cs

  unfoldable pub assistant_turn : (ℕ → String) → Msg → Turn
  unfolding tool_uses
  assistant_turn new_id m = record {
    role = "assistant";
    body =
        if is_empty m.tool_calls
        then Body.raw (if is_truthy m.content then m.content else Content.text "")
        else Body.blocks (leading m.content ++ tool_uses new_id 0 m.tool_calls);
  }

  unfoldable pub convert_by : Role → (ℕ → String) → Msg → Conversion → Conversion
  unfolding flush_tool_results read_system assistant_turn user_turns
  convert_by Role.system new_id m c = read_system m.content (flush_tool_results c)
  convert_by Role.assistant new_id m c =
      let flushed = flush_tool_results c in
      record flushed { turns = snoc flushed.turns (assistant_turn new_id m) }
  convert_by Role.tool new_id m c = record c {
    pending = snoc c.pending (Block.tool_result (or_else m.tool_call_id "") m.content);
  }
  convert_by Role.user new_id m c =
      let flushed = flush_tool_results c in
      record flushed { turns = flushed.turns ++ user_turns m.content }
  convert_by Role.unknown new_id m c = c

  -- One message of the loop.
  unfoldable pub convert_message : (ℕ → String) → Msg → Conversion → Conversion
  unfolding convert_by role_of
  convert_message new_id m c = convert_by (role_of (or_else m.role "")) new_id m c

  unfoldable pub convert_messages : (ℕ → ℕ → String) → ℕ → List Msg → Conversion → Conversion
  unfolding convert_message
  convert_messages new_id i [] c = c
  convert_messages new_id i (m ∷ ms) c =
      convert_messages new_id (suc i) ms (convert_message (new_id i) m c)

  -- The system prompt and the messages.
  unfoldable pub openai_to_anthropic_messages :
      (ℕ → ℕ → String) → List Msg → Option String × List Turn
  unfolding convert_messages flush_tool_results
  openai_to_anthropic_messages new_id ms =
      let c = flush_tool_results (
        convert_messages new_id 0 ms (record { system_prompt = none; turns = []; pending = [] })) in
      (c.system_prompt, c.turns)
