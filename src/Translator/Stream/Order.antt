-- ===== src/Translator/Stream/Order.antt =====
-- When the tool calls of an upstream stream come one after another (app/translator.py), told from its
-- chunks alone.
use custorouter.Common.{
  ℕ, Bool, true, false, ◌&&◌, ◌||◌, Option, none, some, List, [], ◌∷◌, ◌==◌, if◌then◌else◌,
  nonempty, not, or_else,
}
use custorouter.Translator.Stream.Tools.{ToolDelta, index_of}
use custorouter.Translator.Stream.{Delta, Chunk}

abbrev pub was_seen : ℕ → List ℕ → Bool
was_seen idx [] = false
was_seen idx (i ∷ seen) = i == idx || was_seen idx seen

abbrev pub is_live : ℕ → Option ℕ → Bool
is_live idx none = false
is_live idx (some t) = t == idx

-- `live` is the call that nothing has interrupted, `seen` the calls so far. A delta belongs to the
-- live call or to a new one.
abbrev pub order_tools : List ToolDelta → Option ℕ → List ℕ → Option (Option ℕ × List ℕ)
order_tools [] live seen = some (live, seen)
order_tools (d ∷ ds) live seen =
    let rest = order_tools ds (some (index_of d)) (index_of d ∷ seen) in
    if is_live (index_of d) live || not (was_seen (index_of d) seen) then rest else none

-- Text, or reasoning that is shown.
abbrev pub interrupts : Bool → Delta → Bool
interrupts show_reasoning delta =
    nonempty (or_else delta.content "")
    || (nonempty (or_else delta.reasoning_content "") && show_reasoning)

abbrev pub order_chunk : Bool → Chunk → Option ℕ → List ℕ → Option (Option ℕ × List ℕ)
order_chunk show_reasoning (Chunk.usage_only _) live seen = some (live, seen)
order_chunk show_reasoning (Chunk.choice delta _ _) live seen =
    order_tools delta.tool_calls (if interrupts show_reasoning delta then none else live) seen

abbrev pub order_chunks : Bool → List Chunk → Option ℕ → List ℕ → Bool
order_chunks show_reasoning [] live seen = true
order_chunks show_reasoning (c ∷ cs) live seen = elim (order_chunk show_reasoning c live seen) [
  | none ↦ false
  | some (live', seen') ↦ order_chunks show_reasoning cs live' seen'
]

-- No delta returns to a call that was interrupted.
abbrev pub in_order : Bool → List Chunk → Bool
in_order show_reasoning chunks = order_chunks show_reasoning chunks none []
