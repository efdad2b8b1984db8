-- ===== src/OpenAi/Messages/Laws.antt =====
-- The results of tools in the messages of `openai_to_anthropic_messages` (app/translator_openai.py).
use mathlib.Core.List.{append-nil, append_assoc}
use custorouter.Common.{
  ℕ, suc, ◌≡◌, refl, ◌∙◌, sym, ap, ap₂, Bool, true, false, Option, none, String, List, [], ◌∷◌,
  ◌++◌, arith, or_else, is_empty, snoc, keep, all, inl, inr, Bool-cases, Option-cases, split_once,
}
use custorouter.Common.Json.{Json}
use custorouter.OpenAi.Messages.{
  Msg, Content, Block, Body, Turn, Conversion, Role, role_of, flush_tool_results, read_system,
  leading, tool_uses, assistant_turn, part_blocks, image_blocks, user_blocks, user_turns,
  convert_by, convert_message, convert_messages, openai_to_anthropic_messages, Part, Call,
}

abbrev pub is_result : Block → Bool
is_result (Block.tool_result _ _) = true
is_result _ = false

-- The results among the blocks of a turn, and of all turns in a row.
abbrev pub turn_results : Body → List Block
turn_results (Body.raw _) = []
turn_results (Body.blocks bs) = keep is_result bs

abbrev pub results_of : List Turn → List Block
results_of [] = []
results_of (t ∷ ts) = turn_results t.body ++ results_of ts

-- The results that the `tool` messages carry.
abbrev pub result_if : Role → Msg → List Block
result_if Role.tool m = Block.tool_result (or_else m.tool_call_id "") m.content ∷ []
result_if _ m = []

abbrev pub results_in : List Msg → List Block
results_in [] = []
results_in (m ∷ ms) = result_if (role_of (or_else m.role "")) m ++ results_in ms

results_of-append : (xs ys : List Turn) → results_of (xs ++ ys) ≡ results_of xs ++ results_of ys
results_of-append [] ys = refl
results_of-append (t ∷ ts) ys =
    ap (λ r. turn_results t.body ++ r) (results_of-append ts ys)
    ∙ sym (append_assoc (turn_results t.body) (results_of ts) (results_of ys))

keep-append :
    (xs ys : List Block) → keep is_result (xs ++ ys) ≡ keep is_result xs ++ keep is_result ys
keep-append [] ys = refl
keep-append (b ∷ bs) ys = elim (Bool-cases (is_result b)) [
  | inl passes ↦ rw (passes, keep-append bs ys) refl
  | inr fails ↦ rw (fails, keep-append bs ys) refl
]

keep-all : (bs : List Block) → all is_result bs ≡ true → keep is_result bs ≡ bs
keep-all [] h = refl
keep-all (b ∷ bs) h = ground (arith, keep-all bs)

all-snoc :
    (bs : List Block) (b : Block)
    → all is_result bs ≡ true
    → is_result b ≡ true
    → all is_result (snoc bs b) ≡ true
all-snoc [] b h k = ground arith
all-snoc (x ∷ bs) b h k = ground (arith, all-snoc bs b)

-- What was given out and what waits, together the results so far.
abbrev Held : List Block → Conversion → Type 0
Held acc c = (results_of c.turns ++ c.pending ≡ acc) × (all is_result c.pending ≡ true)

-- With nothing left to wait.
abbrev Given : List Block → Conversion → Type 0
Given acc c = (results_of c.turns ≡ acc) × (c.pending ≡ [])

empty_list : (bs : List Block) → is_empty bs ≡ true → bs ≡ []
empty_list [] h = refl
empty_list (b ∷ bs) h = cc

flush_tool_results-Given :
    (acc : List Block) (c : Conversion) → Held acc c → Given acc (flush_tool_results c)
unfolding flush_tool_results
flush_tool_results-Given acc c (e, p) = elim (Bool-cases (is_empty c.pending)) [
  | inl idle ↦
      let none_left = empty_list c.pending idle in
      rw idle (
        sym (append-nil (results_of c.turns))
            ∙ ap (λ x. results_of c.turns ++ x) (sym none_left)
            ∙ e,
        none_left,
      )
  | inr waiting ↦
      let turn : Turn = record { role = "user"; body = Body.blocks c.pending } in
      rw waiting (
        results_of-append c.turns (turn ∷ [])
            ∙ ap (λ x. results_of c.turns ++ x)
                (append-nil (keep is_result c.pending) ∙ keep-all c.pending p)
            ∙ e,
        refl,
      )
]

Given-Held : (acc : List Block) (c : Conversion) → Given acc c → Held acc c
Given-Held acc c (e, p) = (
  ap (λ x. results_of c.turns ++ x) p ∙ append-nil (results_of c.turns) ∙ e,
  ap (all is_result) p,
)

more_turns-Given :
    (acc : List Block) (ts : List Turn) (c : Conversion)
    → results_of ts ≡ []
    → Given acc c
    → Given acc (record c { turns = c.turns ++ ts })
more_turns-Given acc ts c silent (e, p) =
    (results_of-append c.turns ts ∙ ap₂ ◌++◌ e silent ∙ append-nil acc, p)

image_blocks-results : (url : String) → keep is_result (image_blocks url) ≡ []
unfolding image_blocks
image_blocks-results url = elim (Option-cases (split_once b',' url).1) [
  | inl missing ↦ ground arith
  | inr (encoded, found) ↦ ground arith
]

part_blocks-results : (p : Part) → keep is_result (part_blocks p) ≡ []
unfolding part_blocks
part_blocks-results (Part.object kind t url) = ground (arith, image_blocks-results (or_else url ""))
part_blocks-results (Part.word t) = refl
part_blocks-results (Part.other shown) = refl

pub user_blocks-results : (ps : List Part) → keep is_result (user_blocks ps) ≡ []
unfolding user_blocks
user_blocks-results [] = refl
user_blocks-results (p ∷ ps) =
    keep-append (part_blocks p) (user_blocks ps)
    ∙ ap₂ ◌++◌ (part_blocks-results p) (user_blocks-results ps)

user_turns-results : (content : Content) → results_of (user_turns content) ≡ []
unfolding user_turns
user_turns-results Content.null = refl
user_turns-results (Content.text t) = refl
user_turns-results (Content.parts ps) = elim (Bool-cases (is_empty (user_blocks ps))) [
  | inl empty ↦ rw empty refl
  | inr some_blocks ↦
      rw some_blocks (append-nil (keep is_result (user_blocks ps)) ∙ user_blocks-results ps)
]

leading-results : (content : Content) → keep is_result (leading content) ≡ []
leading-results content = ground arith

read_system-Given :
    (acc : List Block) (content : Content) (c : Conversion)
    → Given acc c
    → Given acc (read_system content c)
unfolding read_system
read_system-Given acc Content.null c h = h
read_system-Given acc (Content.text t) c h = h
read_system-Given acc (Content.parts ps) c h = h

module _ (loads : String → Option Json) where
  tool_uses-results :
      (new_id : ℕ → String) (i : ℕ) (cs : List Call)
      → keep is_result (tool_uses loads new_id i cs) ≡ []
  unfolding tool_uses
  tool_uses-results new_id i [] = refl
  tool_uses-results new_id i (c ∷ cs) = tool_uses-results new_id (suc i) cs

  pub assistant_turn-results :
      (new_id : ℕ → String) (m : Msg) → turn_results (assistant_turn loads new_id m).body ≡ []
  unfolding assistant_turn
  assistant_turn-results new_id m = elim (Bool-cases (is_empty m.tool_calls)) [
    | inl silent ↦ rw silent refl
    | inr calls ↦ rw calls (
        keep-append (leading m.content) (tool_uses loads new_id 0 m.tool_calls)
        ∙ ap₂ ◌++◌ (leading-results m.content) (tool_uses-results new_id 0 m.tool_calls))
  ]

  convert_by-Held :
      (role : Role) (new_id : ℕ → String) (m : Msg) (acc : List Block) (c : Conversion)
      → Held acc c
      → Held (acc ++ result_if role m) (convert_by loads role new_id m c)
  unfolding convert_by
  convert_by-Held Role.system new_id m acc c h =
      let flushed = flush_tool_results c in
      rw (append-nil acc) (
        Given-Held acc (read_system m.content flushed)
          (read_system-Given acc m.content flushed (flush_tool_results-Given acc c h)))
  convert_by-Held Role.assistant new_id m acc c h =
      let flushed = flush_tool_results c in
      let turn = assistant_turn loads new_id m in
      rw (append-nil acc) (
        Given-Held acc (record flushed { turns = snoc flushed.turns turn })
          (more_turns-Given acc (turn ∷ []) flushed
            (append-nil (turn_results turn.body) ∙ assistant_turn-results new_id m)
            (flush_tool_results-Given acc c h)))
  convert_by-Held Role.tool new_id m acc c (e, p) =
      let result = Block.tool_result (or_else m.tool_call_id "") m.content in
      (
        sym (append_assoc (results_of c.turns) c.pending (result ∷ []))
            ∙ ap (λ x. x ++ result ∷ []) e,
        all-snoc c.pending result p refl,
      )
  convert_by-Held Role.user new_id m acc c h =
      let flushed = flush_tool_results c in
      rw (append-nil acc) (
        Given-Held acc (record flushed { turns = flushed.turns ++ user_turns m.content })
          (more_turns-Given acc (user_turns m.content) flushed (user_turns-results m.content)
            (flush_tool_results-Given acc c h)))
  convert_by-Held Role.unknown new_id m acc c h = rw (append-nil acc) h

  convert_messages-Held :
      (new_id : ℕ → ℕ → String) (i : ℕ) (ms : List Msg) (acc : List Block) (c : Conversion)
      → Held acc c
      → Held (acc ++ results_in ms) (convert_messages loads new_id i ms c)
  unfolding convert_messages convert_message
  convert_messages-Held new_id i [] acc c h = rw (append-nil acc) h
  convert_messages-Held new_id i (m ∷ ms) acc c h =
      let role = role_of (or_else m.role "") in
      rw (← append_assoc acc (result_if role m) (results_in ms)) (
        convert_messages-Held new_id (suc i) ms (acc ++ result_if role m)
          (convert_by loads role (new_id i) m c) (convert_by-Held role (new_id i) m acc c h))

  -- No result of a tool is lost, made up or moved: the `tool_result` blocks of the Anthropic
  -- messages are those of the `tool` messages, each with its id and its content, in their order.
  pub openai_to_anthropic_messages-results :
      (new_id : ℕ → ℕ → String) (ms : List Msg)
      → results_of (openai_to_anthropic_messages loads new_id ms).1 ≡ results_in ms
  unfolding openai_to_anthropic_messages
  openai_to_anthropic_messages-results new_id ms =
      let start : Conversion = record { system_prompt = none; turns = []; pending = [] } in
      let c = convert_messages loads new_id 0 ms start in
      (flush_tool_results-Given (results_in ms) c
        (convert_messages-Held new_id 0 ms [] start (refl, refl))).0
