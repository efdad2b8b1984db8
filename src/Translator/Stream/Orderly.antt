-- ===== src/Translator/Stream/Orderly.antt =====
-- What holds while the tool calls of a stream come in order (`stream_as_anthropic`, app/translator.py).
use mathlib.Core.Option.{some-injective}
use custorouter.Common.{
  ℕ, ◌≡◌, refl, ◌∙◌, sym, ap, subst, Option, none, some, String, List, [], ◌∷◌, arith, inl, inr,
  ◌⊎◌, Option-cases, true, false, Bool-cases, ◌||◌, not, nonempty, is_some, is_empty, ==_iff,
}
use custorouter.Translator.Stream.Blocks.{Stream, ToolCall, call_at}
use custorouter.Translator.Stream.Blocks.Framed.{IsFramed, flush_text-IsFramed}
use custorouter.Translator.Stream.Text.Calls.{flush_text-calls}
use custorouter.Translator.Stream.Tools.{
  ToolDelta, index_of, is_current_tool, tool_delta, tool_deltas, flush_before_tools,
}
use custorouter.Translator.Stream.Tools.Framed.{tool_delta-Begun}
use custorouter.Translator.Stream.Order.{was_seen, is_live, order_tools}

-- The block of the live call is open, and no text waits.
abbrev pub Live : Option ℕ → Stream → Type 0
Live none s = Unit
Live (some t) s = (is_current_tool t s.current ≡ true) × (nonempty s.text_buffer ≡ false)

-- Every call that the state knows was seen.
abbrev pub Known : List ℕ → List (ℕ × ToolCall) → Type 0
Known seen calls = (j : ℕ) → is_some (call_at j calls) ≡ true → was_seen j seen ≡ true

abbrev pub Orderly : Option ℕ × List ℕ → Stream → Type 0
Orderly (live, seen) s = IsFramed s × Live live s × Known seen s.tool_calls

Live-current :
    (idx : ℕ) (live : Option ℕ) (s : Stream)
    → Live live s
    → is_live idx live ≡ true
    → is_current_tool idx s.current ≡ true
Live-current idx none s h e = cc
Live-current idx (some t) s h e = let same : t ≡ idx = (==_iff t idx).0 e in rw (← same) (h.0)

tool_ready :
    (idx : ℕ) (live : Option ℕ) (seen : List ℕ) (s : Stream)
    → Orderly (live, seen) s
    → (is_live idx live || not (was_seen idx seen)) ≡ true
    → (is_current_tool idx s.current ≡ true) ⊎ (call_at idx s.tool_calls ≡ none)
tool_ready idx live seen s (framed, open_call, known) ok =
    elim (Option-cases (call_at idx s.tool_calls)) [
      | inl fresh ↦ inr fresh
      | inr (call, found) ↦
          let seen_before = known idx (ap is_some found) in
          inl (Live-current idx live s open_call (ground arith))
    ]

pub same_calls :
    (seen : List ℕ) {calls calls' : List (ℕ × ToolCall)}
    → calls' ≡ calls
    → Known seen calls
    → Known seen calls'
same_calls seen e h = subst (Known seen) (sym e) h

pub same-Live :
    (live : Option ℕ) (s t : Stream)
    → Live live s
    → t.current ≡ s.current
    → t.text_buffer ≡ s.text_buffer
    → Live live t
same-Live none s t h c b = tt
same-Live (some idx) s t h c b = (ap (is_current_tool idx) c ∙ h.0, ap nonempty b ∙ h.1)

no-Live :
    (live : Option ℕ) (s t : Stream) → Live live s → nonempty s.text_buffer ≡ true → Live live t
no-Live none s t h e = tt
no-Live (some idx) s t h e = cc

pub tool_deltas-Orderly :
    (call_id : ℕ → String) (ds : List ToolDelta) (live : Option ℕ) (seen : List ℕ) (s : Stream)
    {after : Option ℕ × List ℕ}
    → order_tools ds live seen ≡ some after
    → (is_empty ds ≡ true) ⊎ (nonempty s.text_buffer ≡ false)
    → Orderly (live, seen) s
    → Orderly after (tool_deltas call_id ds s)
unfolding tool_deltas
tool_deltas-Orderly call_id [] live seen s e b h = subst (λ p. Orderly p s) (some-injective _ _ e) h
tool_deltas-Orderly call_id (d ∷ ds) live seen s e (inl never) h = cc
tool_deltas-Orderly call_id (d ∷ ds) live seen s e (inr empty) h =
    let idx = index_of d in
    elim (Bool-cases (is_live idx live || not (was_seen idx seen))) [
      | inr back ↦ absurd (ground arith)
      | inl ok ↦
          let (framed, current, kept, known) =
            tool_delta-Begun call_id d s h.0 (tool_ready idx live seen s h ok) in
          tool_deltas-Orderly call_id ds (some idx) (idx ∷ seen) (tool_delta call_id d s)
            (rw ok at e) (inr (ap nonempty kept ∙ empty))
            (framed, (current, ap nonempty kept ∙ empty), λ j found. ground (arith, known j, h.2 j))
    ]

pub flush_before_tools-Orderly :
    (ds : List ToolDelta) (live : Option ℕ) (seen : List ℕ) (s : Stream)
    → Orderly (live, seen) s
    → Orderly (live, seen) (flush_before_tools ds s)
      × ((is_empty ds ≡ true) ⊎ (nonempty (flush_before_tools ds s).text_buffer ≡ false))
unfolding flush_before_tools
flush_before_tools-Orderly [] live seen s h = (h, inl refl)
flush_before_tools-Orderly (d ∷ ds) live seen s h = elim (Bool-cases (nonempty s.text_buffer)) [
  | inr empty ↦ rw empty (h, inr empty)
  | inl held ↦ rw held (
    (
      flush_text-IsFramed s h.0,
      no-Live live s _ h.1 held,
      same_calls seen (flush_text-calls s) h.2,
    ),
    inr refl,
  )
]
