-- ===== src/Translator/Turns/Laws.antt =====
-- The results of tools on their way to OpenAI's messages (app/translator.py) and back
-- (app/translator_openai.py).
use mathlib.Core.List.{append-nil, append_assoc}
use custorouter.Common.{
  join, keep, ℕ, suc, ◌≡◌, refl, ◌∙◌, sym, ap, ap₂, subst, Bool, true, false, Option, String, List,
  [], ◌∷◌, ◌++◌, arith, or_else, nonempty, is_empty, inl, inr, Bool-cases, All, str_eq, eq_iff,
  if◌then◌else◌,
}
use custorouter.Common.Json.{Json}
use custorouter.OpenAi.Messages
use custorouter.OpenAi.Messages.{Content, Msg, role_of, openai_to_anthropic_messages, Part}
use custorouter.OpenAi.Messages.Laws.{
  result_if, results_of, results_in, openai_to_anthropic_messages-results,
}
use custorouter.Translator.Turns.{
  Block, Said, Turn, is_kind, say, part_lines, flatten_content, flatten_said, tool_results,
  final_content, user_messages, assistant_message, tool_calls, turn_blocks, turn_messages,
  all_messages, to_openai_messages,
}

-- The texts in the parts of a content: those of the objects, the empty text where an object has
-- none, and the parts that are texts.
abbrev pub texts_in : List Part → List String
texts_in [] = []
texts_in (Part.object kind text url ∷ ps) = or_else text "" ∷ texts_in ps
texts_in (Part.word t ∷ ps) = t ∷ texts_in ps
texts_in (Part.other shown ∷ ps) = texts_in ps

-- The text of a content: what it is, or the texts of its parts that are not empty, on a line each.
abbrev pub text_in : Content → String
text_in Content.null = ""
text_in (Content.text t) = t
text_in (Content.parts ps) = join "\n" (keep nonempty (texts_in ps))

part_lines-texts_in : (ps : List Part) → part_lines ps ≡ keep nonempty (texts_in ps)
unfolding part_lines
part_lines-texts_in [] = refl
part_lines-texts_in (Part.object kind text url ∷ ps) = ground (arith, part_lines-texts_in ps)
part_lines-texts_in (Part.word t ∷ ps) = ground (arith, part_lines-texts_in ps)
part_lines-texts_in (Part.other shown ∷ ps) = part_lines-texts_in ps

flatten_content-text_in : (c : Content) → flatten_content c ≡ text_in c
unfolding flatten_content
flatten_content-text_in Content.null = refl
flatten_content-text_in (Content.text t) = refl
flatten_content-text_in (Content.parts ps) = ap (join "\n") (part_lines-texts_in ps)

-- The results among the blocks of a turn, each with its id and its text.
abbrev pub given_in : List Block → List Messages.Block
given_in [] = []
given_in (Block.object o ∷ bs) =
    let rest = given_in bs in
    if str_eq (or_else o.kind "") "tool_result"
    then Messages.Block.tool_result (or_else o.tool_use_id "") (Content.text (text_in o.content))
      ∷ rest
    else rest
given_in (Block.word t ∷ bs) = given_in bs
given_in (Block.other ∷ bs) = given_in bs

-- Those of a user's turn.
abbrev pub given_by : Turn → List Messages.Block
given_by t = elim t.said [
  | Said.null ↦ []
  | Said.plain text ↦ []
  | Said.blocks bs ↦ if str_eq t.role "user" then given_in bs else []
]

abbrev pub given_of : List Turn → List Messages.Block
given_of [] = []
given_of (t ∷ ts) = given_by t ++ given_of ts

results_in-append : (xs ys : List Msg) → results_in (xs ++ ys) ≡ results_in xs ++ results_in ys
results_in-append [] ys = refl
results_in-append (m ∷ ms) ys =
    let first = result_if (role_of (or_else m.role "")) m in
    ap (λ (r : List Messages.Block). first ++ r) (results_in-append ms ys)
    ∙ sym (append_assoc first (results_in ms) (results_in ys))

tool_results-given : (bs : List Block) → results_in (tool_results bs) ≡ given_in bs
unfolding tool_results role_of
tool_results-given [] = refl
tool_results-given (Block.object o ∷ bs) = elim (Bool-cases (is_kind "tool_result" o)) [
  | inl result ↦ rw result (
      ap₂
        (λ (t : String) (r : List Messages.Block).
          Messages.Block.tool_result (or_else o.tool_use_id "") (Content.text t) ∷ r)
        (flatten_content-text_in o.content) (tool_results-given bs))
  | inr other ↦ rw other (tool_results-given bs)
]
tool_results-given (Block.word t ∷ bs) = tool_results-given bs
tool_results-given (Block.other ∷ bs) = tool_results-given bs

say-results :
    (role : String) (content : Content)
    → str_eq role "tool" ≡ false
    → results_in (say role content ∷ []) ≡ []
unfolding role_of
say-results role content h = ground (arith, h)

empty_list : (ms : List Msg) → is_empty ms ≡ true → ms ≡ []
empty_list [] h = refl
empty_list (m ∷ ms) h = cc

shown_last :
    (b : Bool) (content : Content) → results_in (if b then [] else say "user" content ∷ []) ≡ []
unfolding role_of
shown_last true content = refl
shown_last false content = refl

user_messages-given : (bs : List Block) → results_in (user_messages bs) ≡ given_in bs
unfolding user_messages role_of
user_messages-given bs =
    let results = tool_results bs in
    let content = final_content bs in
    elim (Bool-cases (is_empty results)) [
      | inl bare ↦ rw bare (sym (ap results_in (empty_list results bare)) ∙ tool_results-given bs)
      | inr some_result ↦ rw some_result (
          results_in-append results
            (if is_empty content then [] else say "user" (Content.parts content) ∷ [])
          ∙ (ap₂ (λ (a b : List Messages.Block). a ++ b) (tool_results-given bs)
                (shown_last (is_empty content) (Content.parts content))
              ∙ append-nil (given_in bs)))
    ]

module _ (dumps : Json → String) (new_id : ℕ → ℕ → String) where
  assistant_message-results :
      (i : ℕ) (bs : List Block) → results_in (assistant_message dumps new_id i bs ∷ []) ≡ []
  unfolding assistant_message role_of
  assistant_message-results i bs = elim (Bool-cases (is_empty (tool_calls dumps new_id i 0 bs))) [
    | inl bare ↦ rw bare refl
    | inr some_call ↦ rw some_call refl
  ]

  blocks-given :
      (i : ℕ) (role : String) (bs : List Block)
      → str_eq role "tool" ≡ false
      → results_in (turn_blocks dumps new_id i role bs)
        ≡ (if str_eq role "user" then given_in bs else [])
  blocks-given i role bs h = elim (Bool-cases (str_eq role "assistant")) [
    | inl assistant ↦
        let e = (eq_iff role "assistant").0 assistant in
        subst
          (λ (r : String).
            results_in (turn_blocks dumps new_id i r bs)
            ≡ (if str_eq r "user" then given_in bs else []))
          (sym e) (assistant_message-results i bs)
    | inr other ↦ elim (Bool-cases (str_eq role "user")) [
      | inl user ↦ rw (other, user) (user_messages-given bs)
      | inr neither ↦
          rw (other, neither) (say-results role (Content.text (flatten_said (Said.blocks bs))) h)
    ]
  ]

  said-given :
      (i : ℕ) (role : String) (said : Said)
      → str_eq role "tool" ≡ false
      → results_in (turn_messages dumps new_id i (record { role = role; said = said }))
        ≡ given_by (record { role = role; said = said })
  unfolding turn_messages
  said-given i role Said.null h = say-results role (Content.text "") h
  said-given i role (Said.plain text) h = say-results role (Content.text text) h
  said-given i role (Said.blocks bs) h = blocks-given i role bs h

  all_messages-given :
      (i : ℕ) (ts : List Turn)
      → All (λ (t : Turn). str_eq t.role "tool" ≡ false) ts
      → results_in (all_messages dumps new_id i ts) ≡ given_of ts
  unfolding all_messages
  all_messages-given i [] h = refl
  all_messages-given i (t ∷ ts) h =
      results_in-append (turn_messages dumps new_id i t) (all_messages dumps new_id (suc i) ts)
      ∙ ap₂ (λ (a b : List Messages.Block). a ++ b) (said-given i t.role t.said h.0)
          (all_messages-given (suc i) ts h.1)

  to_openai_messages-given :
      (system : Said) (ts : List Turn)
      → All (λ (t : Turn). str_eq t.role "tool" ≡ false) ts
      → results_in (to_openai_messages dumps new_id system ts) ≡ given_of ts
  unfolding to_openai_messages role_of
  to_openai_messages-given Said.null ts h = all_messages-given 0 ts h
  to_openai_messages-given (Said.plain text) ts h = elim (Bool-cases (nonempty text)) [
    | inl some_text ↦ rw some_text (all_messages-given 0 ts h)
    | inr bare ↦ rw bare (all_messages-given 0 ts h)
  ]
  to_openai_messages-given (Said.blocks []) ts h = all_messages-given 0 ts h
  to_openai_messages-given (Said.blocks (b ∷ bs)) ts h = all_messages-given 0 ts h

  -- The results of tools survive the way to OpenAI's messages and back: after both translations the
  -- `tool_result` blocks are those of the users' turns, each under its id and with the text of its
  -- content (a list's texts that are not empty, on a line each), in their order, if no turn has the
  -- role `tool`, which Anthropic does not know.
  pub openai_to_anthropic_messages-to_openai_messages :
      (loads : String → Option Json) (id : ℕ → ℕ → String) (system : Said) (ts : List Turn)
      → All (λ (t : Turn). str_eq t.role "tool" ≡ false) ts
      → results_of
          (openai_to_anthropic_messages loads id (to_openai_messages dumps new_id system ts)).1
        ≡ given_of ts
  openai_to_anthropic_messages-to_openai_messages loads id system ts h =
      openai_to_anthropic_messages-results loads id (to_openai_messages dumps new_id system ts)
      ∙ to_openai_messages-given system ts h
