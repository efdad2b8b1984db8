-- ===== src/OpenAi/Messages/Groups.antt =====
-- Results of parallel calls stay together in `openai_to_anthropic_messages` (app/translator_openai.py).
use mathlib.Core.List.{append-nil}
use custorouter.Common.{
  ℕ, suc, ◌≡◌, refl, ◌∙◌, sym, ap, subst, Bool, true, false, not, ◌&&◌, Option, none, String, List,
  [], ◌∷◌, ◌++◌, arith, or_else, is_empty, snoc, keep, if◌then◌else◌, inl, inr, Bool-cases,
}
use custorouter.Common.Json.{Json}
use custorouter.OpenAi.Messages.{
  Msg, Content, Block, Body, Turn, Conversion, Role, role_of, flush_tool_results, read_system,
  assistant_turn, user_blocks, user_turns, convert_by, convert_message, convert_messages,
  openai_to_anthropic_messages,
}
use custorouter.OpenAi.Messages.Laws.{
  is_result, turn_results, assistant_turn-results, user_blocks-results,
}

-- A turn that gives results.
abbrev pub gives_results : Body → Bool
gives_results (Body.blocks (Block.tool_result _ _ ∷ _)) = true
gives_results _ = false

-- No two such turns in a row.
abbrev pub are_separate : List Turn → Bool
are_separate [] = true
are_separate (t ∷ []) = true
are_separate (t ∷ u ∷ ts) =
    not (gives_results t.body && gives_results u.body) && are_separate (u ∷ ts)

abbrev ends_with_results : List Turn → Bool
ends_with_results [] = false
ends_with_results (t ∷ []) = gives_results t.body
ends_with_results (t ∷ u ∷ ts) = ends_with_results (u ∷ ts)

ends-snoc : (ts : List Turn) (t : Turn) → ends_with_results (snoc ts t) ≡ gives_results t.body
ends-snoc [] t = refl
ends-snoc (x ∷ []) t = refl
ends-snoc (x ∷ y ∷ ts) t = ends-snoc (y ∷ ts) t

separate-snoc :
    (ts : List Turn) (t : Turn)
    → are_separate (snoc ts t)
      ≡ (are_separate ts && not (ends_with_results ts && gives_results t.body))
separate-snoc [] t = refl
separate-snoc (x ∷ []) t = ground arith
separate-snoc (x ∷ y ∷ ts) t = ground (arith, separate-snoc (y ∷ ts) t)

no_results : (b : Body) → turn_results b ≡ [] → gives_results b ≡ false
no_results (Body.raw _) h = refl
no_results (Body.blocks []) h = refl
no_results (Body.blocks (Block.tool_result i c ∷ bs)) h = cc
no_results (Body.blocks (Block.text _ ∷ bs)) h = refl
no_results (Body.blocks (Block.tool_use _ _ _ ∷ bs)) h = refl
no_results (Body.blocks (Block.image _ _ ∷ bs)) h = refl

-- A message that would take results out of one turn: a system message or a user's message without
-- content, right behind results that wait.
abbrev pub cuts_in : Role → Content → Bool
cuts_in Role.system _ = true
cuts_in Role.user Content.null = true
cuts_in _ _ = false

abbrev pub waits_after : Role → Bool → Bool
waits_after Role.tool waiting = true
waits_after Role.unknown waiting = waiting
waits_after _ waiting = false

abbrev pub results_together : Bool → List Msg → Bool
results_together waiting [] = true
results_together waiting (m ∷ ms) =
    let role = role_of (or_else m.role "") in
    not (waiting && cuts_in role m.content) && results_together (waits_after role waiting) ms

abbrev Spaced : Bool → Conversion → Type 0
Spaced waiting c =
    (are_separate c.turns ≡ true)
    × (ends_with_results c.turns ≡ false)
    × (is_empty c.pending ≡ not waiting)

-- One more turn, behind results or not.
spaced_turn :
    (ts : List Turn) (t : Turn)
    → are_separate ts ≡ true
    → (ends_with_results ts && gives_results t.body) ≡ false
    → are_separate (snoc ts t) ≡ true
spaced_turn ts t h e = separate-snoc ts t ∙ ground arith

-- A flush, and one turn without results behind it.
flush_then :
    (waiting : Bool) (c : Conversion) (t : Turn)
    → Spaced waiting c
    → gives_results t.body ≡ false
    → Spaced false (record (flush_tool_results c) { turns = snoc (flush_tool_results c).turns t })
unfolding flush_tool_results
flush_then waiting c t (apart, open_end, _) e = elim (Bool-cases (is_empty c.pending)) [
  | inl idle ↦ rw idle (spaced_turn c.turns t apart (ground arith), ends-snoc c.turns t ∙ e, idle)
  | inr held ↦
      let r : Turn = record { role = "user"; body = Body.blocks c.pending } in
      rw held (
        spaced_turn (snoc c.turns r) t (spaced_turn c.turns r apart (ground arith)) (ground arith),
        ends-snoc (snoc c.turns r) t ∙ e,
        refl,
      )
]

flush_idle : (c : Conversion) → is_empty c.pending ≡ true → flush_tool_results c ≡ c
unfolding flush_tool_results
flush_idle c h = rw (h, flush_tool_results) refl

idle_when :
    (waiting : Bool) (c : Conversion)
    → Spaced waiting c
    → waiting ≡ false
    → flush_tool_results c ≡ c
idle_when waiting c h e = flush_idle c (h.2 ∙ ap not e)

user_turn-plain :
    (bs : List Block)
    → keep is_result bs ≡ []
    → gives_results (if is_empty bs then Body.raw (Content.text "") else Body.blocks bs) ≡ false
user_turn-plain [] h = refl
user_turn-plain (b ∷ bs) h = no_results (Body.blocks (b ∷ bs)) h

read_system-Spaced :
    (waiting : Bool) (content : Content) (c : Conversion)
    → Spaced waiting c
    → Spaced waiting (read_system content c)
unfolding read_system
read_system-Spaced waiting Content.null c h = h
read_system-Spaced waiting (Content.text t) c h = h
read_system-Spaced waiting (Content.parts ps) c h = h

snoc-pending : (bs : List Block) (b : Block) → is_empty (snoc bs b) ≡ false
snoc-pending [] b = refl
snoc-pending (x ∷ bs) b = refl

module _ (loads : String → Option Json) where
  user-Spaced :
      (content : Content) (waiting : Bool) (c : Conversion)
      → (waiting && cuts_in Role.user content) ≡ false
      → Spaced waiting c
      → Spaced false (record (flush_tool_results c) {
        turns = (flush_tool_results c).turns ++ user_turns content;
      })
  unfolding user_turns
  user-Spaced Content.null waiting c ok h =
      let idle : waiting ≡ false = ground arith in
      subst (λ (d : Conversion). Spaced false (record d { turns = d.turns ++ [] }))
        (sym (idle_when waiting c h idle)) (rw (append-nil c.turns) (h.0, h.1, h.2 ∙ ap not idle))
  user-Spaced (Content.text t) waiting c ok h = flush_then waiting c _ h refl
  user-Spaced (Content.parts ps) waiting c ok h =
      flush_then waiting c _ h (user_turn-plain (user_blocks ps) (user_blocks-results ps))

  convert_by-Spaced :
      (role : Role) (new_id : ℕ → String) (m : Msg) (waiting : Bool) (c : Conversion)
      → (waiting && cuts_in role m.content) ≡ false
      → Spaced waiting c
      → Spaced (waits_after role waiting) (convert_by loads role new_id m c)
  unfolding convert_by
  convert_by-Spaced Role.system new_id m waiting c ok h =
      let idle : waiting ≡ false = ground arith in
      subst (λ d. Spaced false (read_system m.content d)) (sym (idle_when waiting c h idle))
        (read_system-Spaced false m.content c (h.0, h.1, h.2 ∙ ap not idle))
  convert_by-Spaced Role.assistant new_id m waiting c ok h =
      let turn = assistant_turn loads new_id m in
      flush_then waiting c turn h (no_results turn.body (assistant_turn-results loads new_id m))
  convert_by-Spaced Role.tool new_id m waiting c ok h = (h.0, h.1, snoc-pending c.pending _)
  convert_by-Spaced Role.user new_id m waiting c ok h = user-Spaced m.content waiting c ok h
  convert_by-Spaced Role.unknown new_id m waiting c ok h = h

  convert_messages-Spaced :
      (new_id : ℕ → ℕ → String) (i : ℕ) (ms : List Msg) (waiting : Bool) (c : Conversion)
      → results_together waiting ms ≡ true
      → Spaced waiting c
      → (last : Bool) × Spaced last (convert_messages loads new_id i ms c)
  unfolding convert_messages convert_message
  convert_messages-Spaced new_id i [] waiting c ok h = (waiting, h)
  convert_messages-Spaced new_id i (m ∷ ms) waiting c ok h =
      let role = role_of (or_else m.role "") in
      convert_messages-Spaced new_id (suc i) ms (waits_after role waiting)
        (convert_by loads role (new_id i) m c) (ground arith)
        (convert_by-Spaced role (new_id i) m waiting c (ground arith) h)

  flush-separate :
      (waiting : Bool) (c : Conversion)
      → Spaced waiting c
      → are_separate (flush_tool_results c).turns ≡ true
  unfolding flush_tool_results
  flush-separate waiting c (apart, open_end, _) = elim (Bool-cases (is_empty c.pending)) [
    | inl idle ↦ rw idle apart
    | inr held ↦ rw held (
        spaced_turn c.turns (record { role = "user"; body = Body.blocks c.pending }) apart
          (ground arith))
  ]

  -- The results of parallel calls make one user turn: no two turns that give results stand in a row, if
  -- neither a system message nor a user's message without content comes right behind the message of a
  -- tool.
  pub openai_to_anthropic_messages-separate :
      (new_id : ℕ → ℕ → String) (ms : List Msg)
      → results_together false ms ≡ true
      → are_separate (openai_to_anthropic_messages loads new_id ms).1 ≡ true
  unfolding openai_to_anthropic_messages
  openai_to_anthropic_messages-separate new_id ms ok =
      let start : Conversion = record { system_prompt = none; turns = []; pending = [] } in
      let (last, spaced) = convert_messages-Spaced new_id 0 ms false start ok (refl, refl, refl) in
      flush-separate last (convert_messages loads new_id 0 ms start) spaced
