-- ===== src/Translator/Compact.antt =====
-- `compact_messages` of app/translator.py: the last messages of a conversation that is too long, with
-- every tool result in front of whose call the cut fell.
pub mod Laws
mod Tests
use custorouter.Common.{
  ℕ, zero, suc, ◌+◌, ◌-◌, ◌*◌, Bool, true, false, not, ◌&&◌, ◌||◌, Option, none, some, String, List,
  [], ◌∷◌, ◌++◌, ltb, leb, ◌==◌, if◌then◌else◌, length, drop, keep, any, find, index_where,
  is_empty, str_eq, nonempty, or_else,
}

-- An OpenAI message: its role, the ids of its `tool_calls` if it has that key, its `tool_call_id`, and
-- the rest of it.
pub record Msg : Type 0 where
  pub role : String
  pub tool_calls : Option (List (Option String))
  pub tool_call_id : Option String
  pub body : String

abbrev pub has_role : String → Msg → Bool
has_role r m = str_eq m.role r

abbrev pub is_id : String → Option String → Bool
is_id tcid none = false
is_id tcid (some i) = str_eq i tcid

abbrev pub calls_id : String → Option (List (Option String)) → Bool
calls_id tcid none = false
calls_id tcid (some ids) = any (is_id tcid) ids

-- `m.get("role") == "assistant" and "tool_calls" in m` with a call of that id.
abbrev pub is_caller : String → Msg → Bool
is_caller tcid m = has_role "assistant" m && calls_id tcid m.tool_calls

-- `tcid in active_tool_call_ids`
abbrev pub is_active : String → List Msg → Bool
is_active tcid kept = any (is_caller tcid) kept

-- A `tool` message with a truthy id and no call of that id among those that are kept.
abbrev pub is_orphan : List Msg → Msg → Bool
is_orphan kept m =
    has_role "tool" m
    && nonempty (or_else m.tool_call_id "")
    && not (is_active (or_else m.tool_call_id "") kept)

-- What the loop does at an orphan: the cut moves back to its caller; or there is none, and all messages
-- with its id go; or neither.
pub data Repair : Type 0 where
  move_cut : ℕ → Repair
  remove_id : String → Repair
  leave : Repair

abbrev pub without_id : String → List Msg → List Msg
without_id tcid = keep (λ m. not (is_id tcid m.tool_call_id))

module _ (conversation : List Msg) where
  unfoldable pub repair : ℕ → String → Repair
  repair cut tcid = elim (index_where (is_caller tcid) conversation) [
    | none ↦ Repair.remove_id tcid
    | some i ↦ if ltb i cut then Repair.move_cut i else Repair.leave
  ]

  -- The loop over the messages that are kept: the first orphan that can be repaired ends it.
  unfoldable pub first_repair : ℕ → List Msg → List Msg → Repair
  unfolding repair
  first_repair cut kept [] = Repair.leave
  first_repair cut kept (m ∷ ms) =
      let rest = first_repair cut kept ms in
      if is_orphan kept m
      then elim (repair cut (or_else m.tool_call_id "")) [
        | Repair.leave ↦ rest
        | Repair.move_cut i ↦ Repair.move_cut i
        | Repair.remove_id tcid ↦ Repair.remove_id tcid
      ]
      else rest

  -- The `while True`, on fuel; without an answer if that runs out.
  unfoldable pub repair_all : ℕ → ℕ → List Msg → Option (List Msg)
  unfolding first_repair
  repair_all zero cut kept = none
  repair_all (suc fuel) cut kept = elim (first_repair cut kept kept) [
    | Repair.leave ↦ some kept
    | Repair.move_cut i ↦ repair_all fuel i (drop i conversation)
    | Repair.remove_id tcid ↦ repair_all fuel cut (without_id tcid kept)
  ]

-- `[i for i, m in enumerate(conversation) if m.get("role") == "user"]`
unfoldable pub safe_points : ℕ → List Msg → List ℕ
safe_points i [] = []
safe_points i (m ∷ ms) =
    let rest = safe_points (suc i) ms in if has_role "user" m then i ∷ rest else rest

-- The first cut, and what it keeps: from the first safe point at the target or behind it, or else from
-- the very first one; without any, the last `keep_last` messages.
unfoldable pub cut_at : ℕ → List Msg → List ℕ → ℕ × List Msg
cut_at keep_last conversation [] =
    let target = length conversation - keep_last in
    (target, if keep_last == 0 then conversation else drop target conversation)
cut_at keep_last conversation (sp ∷ sps) =
    let cut = or_else (find (leb (length conversation - keep_last)) (sp ∷ sps)) sp in
    (cut, drop cut conversation)

-- More than the loop can take.
abbrev pub enough : ℕ → List Msg → List Msg → ℕ
enough cut conversation kept = suc (cut * suc (length conversation) + length kept)

unfoldable pub compact_conversation : ℕ → List Msg → Option (List Msg)
unfolding cut_at safe_points repair_all
compact_conversation keep_last conversation =
    let (cut, kept) = cut_at keep_last conversation (safe_points 0 conversation) in
    repair_all conversation (enough cut conversation kept) cut kept

unfoldable pub compact_messages : List Msg → ℕ → Option (List Msg)
unfolding compact_conversation
compact_messages messages keep_last =
    let conversation = keep (λ m. not (has_role "system" m)) messages in
    if leb (length messages) keep_last || leb (length conversation) keep_last
    then some messages
    else elim (compact_conversation keep_last conversation) [
      | none ↦ none
      | some kept ↦ some (keep (has_role "system") messages ++ kept)
    ]
