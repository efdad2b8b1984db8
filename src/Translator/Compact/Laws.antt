-- ===== src/Translator/Compact/Laws.antt =====
-- What is left of a conversation that is too long (`compact_messages`, app/translator.py).
pub mod Steps
use Steps.{
  is_plain_caller, any-of_drop, any-append, all-append, keep-append, keep-none, keep-all, all-kept,
  all-drop, all-keep, length-keep-lt, length-drop-le, is_active-without, repair-leave, Explained,
  first_repair_lem,
}
use mathlib.Core.List.{append-nil}
use custorouter.Common.{
  ℕ, zero, suc, ◌+◌, ◌-◌, ◌*◌, ◌≤◌, ◌<◌, ◌≡◌, refl, ◌∙◌, sym, ap, ap₂, subst, eq_iff, str_eq, Bool,
  true, false, not, ◌&&◌, ◌||◌, ◌⊎◌, Option, none, some, String, List, [], ◌∷◌, ◌++◌, arith, ltb,
  leb, if◌then◌else◌, length, drop, keep, any, all, inl, inr, Bool-cases, Option-cases, or_else,
  nonempty, ◌==◌, length-keep,
}
use custorouter.Translator.Compact.{
  Msg, Repair, has_role, is_id, is_active, is_orphan, repair, first_repair, without_id, repair_all,
  cut_at, safe_points, is_caller, enough, compact_conversation, compact_messages,
}

-- Behind the cut nothing that calls is missing, and what is kept comes from the conversation.
pub record IsKept (conversation : List Msg) (cut : ℕ) (kept : List Msg) : Type 0 where
  pub callers :
      (tcid : String) → is_active tcid (drop cut conversation) ≡ true → is_active tcid kept ≡ true
  pub part : (p : Msg → Bool) → all p conversation ≡ true → all p kept ≡ true
  pub size : length kept ≤ length conversation

drop-IsKept : (conversation : List Msg) (cut : ℕ) → IsKept conversation cut (drop cut conversation)
drop-IsKept conversation cut = record {
  callers = λ tcid h. h;
  part = λ p. all-drop p cut conversation;
  size = length-drop-le cut conversation;
}

whole-IsKept : (conversation : List Msg) (cut : ℕ) → IsKept conversation cut conversation
whole-IsKept conversation cut = record {
  callers = λ tcid h. any-of_drop (is_caller tcid) cut conversation h;
  part = λ p h. h;
  size = omega arith;
}

-- The round takes something away: a smaller cut, or fewer messages.
abbrev weight : List Msg → ℕ → List Msg → ℕ
weight conversation cut kept = cut * suc (length conversation) + length kept

lighter :
    (i cut n k left fuel : ℕ)
    → i < cut
    → k ≤ n
    → cut * suc n + left < suc fuel
    → i * suc n + k < fuel
lighter i cut n k left fuel less fits w = grind arith

module _ (conversation : List Msg) (plain : all is_plain_caller conversation ≡ true) where
  without_id-IsKept :
      (cut : ℕ) (kept : List Msg) (gone : String)
      → IsKept conversation cut kept
      → IsKept conversation cut (without_id gone kept)
  without_id-IsKept cut kept gone h = record {
    callers = λ tcid e.
        is_active-without tcid gone kept (h.part is_plain_caller plain) (h.callers tcid e);
    part = λ p e. all-keep p (λ m. not (is_id gone m.tool_call_id)) kept (h.part p e);
    size = omega (arith, length-keep (λ (m : Msg). not (is_id gone m.tool_call_id)) kept, h.size);
  }

  -- The answer of the loop.
  abbrev Settled : Option (List Msg) → Type 0
  Settled r =
      (kept : List Msg) × (r ≡ some kept)
      × (any (is_orphan kept) kept ≡ false)
      × ((p : Msg → Bool) → all p conversation ≡ true → all p kept ≡ true)

  abbrev Again : ℕ → Type 0
  Again fuel =
      (cut : ℕ) (kept : List Msg)
      → IsKept conversation cut kept
      → weight conversation cut kept < fuel
      → Settled (repair_all conversation fuel cut kept)

  settle :
      (fuel cut : ℕ) (kept : List Msg) (r : Repair)
      → first_repair conversation cut kept kept ≡ r
      → Again fuel
      → IsKept conversation cut kept
      → weight conversation cut kept < suc fuel
      → Settled (repair_all conversation (suc fuel) cut kept)
  unfolding repair_all
  settle fuel cut kept Repair.leave e again h w =
      let told : Explained conversation cut kept kept Repair.leave =
        subst (Explained conversation cut kept kept) e
          (first_repair_lem conversation cut kept kept) in
      let active = λ (tcid : String) (left : repair conversation cut tcid ≡ Repair.leave).
        h.callers tcid (repair-leave conversation cut tcid left) in
      (kept, rw (e, repair_all) refl, told active, h.part)
  settle fuel cut kept (Repair.move_cut i) e again h w =
      let less : i < cut =
        subst (Explained conversation cut kept kept) e
          (first_repair_lem conversation cut kept kept) in
      subst Settled (rw (e, repair_all) refl) (
        again i (drop i conversation) (drop-IsKept conversation i) (
          lighter i cut (length conversation) (length (drop i conversation)) (length kept) fuel less
            (length-drop-le i conversation) w))
  settle fuel cut kept (Repair.remove_id tcid) e again h w =
      let hit : any (λ m. is_id tcid m.tool_call_id) kept ≡ true =
        subst (Explained conversation cut kept kept) e
          (first_repair_lem conversation cut kept kept) in
      subst Settled (rw (e, repair_all) refl) (
        again cut (without_id tcid kept) (without_id-IsKept cut kept tcid h)
          (omega (arith, length-keep-lt (λ (m : Msg). is_id tcid m.tool_call_id) kept hit)))

  repair_all-Settled : (fuel : ℕ) → Again fuel
  repair_all-Settled zero cut kept h w = elim w [ ]
  repair_all-Settled (suc fuel) cut kept h w =
      settle fuel cut kept (first_repair conversation cut kept kept) refl (repair_all-Settled fuel)
        h w

  cut_at-IsKept :
      (keep_last : ℕ) (points : List ℕ)
      → IsKept conversation
          (cut_at keep_last conversation points).0
          (cut_at keep_last conversation points).1
  unfolding cut_at
  cut_at-IsKept keep_last (sp ∷ sps) = drop-IsKept conversation _
  cut_at-IsKept keep_last [] = elim (Bool-cases (keep_last == 0)) [
    | inl all_kept ↦ rw all_kept (whole-IsKept conversation (length conversation - keep_last))
    | inr some_kept ↦ rw some_kept (drop-IsKept conversation (length conversation - keep_last))
  ]

  compact_conversation-Settled :
      (keep_last : ℕ) → Settled (compact_conversation keep_last conversation)
  unfolding compact_conversation
  compact_conversation-Settled keep_last =
      let start = cut_at keep_last conversation (safe_points 0 conversation) in
      repair_all-Settled (enough start.0 conversation start.1) start.0 start.1
        (cut_at-IsKept keep_last (safe_points 0 conversation)) (omega arith)

-- The messages that a call keeps of those that are too many.
pub record IsCompacted (messages kept : List Msg) : Type 0 where
  pub systems : keep (has_role "system") kept ≡ keep (has_role "system") messages
  pub answered : any (is_orphan kept) kept ≡ false
  pub part : (p : Msg → Bool) → all p messages ≡ true → all p kept ≡ true

not_tool : (role : String) → str_eq role "system" ≡ true → str_eq role "tool" ≡ false
not_tool role h = subst (λ r. str_eq r "tool" ≡ false) (sym ((eq_iff role "system").0 h)) refl

-- A system message answers no call.
systems-answered :
    (kept ms : List Msg) → all (has_role "system") ms ≡ true → any (is_orphan kept) ms ≡ false
systems-answered kept [] h = refl
systems-answered kept (m ∷ ms) h = ground (arith, systems-answered kept ms, not_tool m.role)

-- With more messages around them, no answer loses its call.
more-answered :
    (systems kept ms : List Msg)
    → any (is_orphan kept) ms ≡ false
    → any (is_orphan (systems ++ kept)) ms ≡ false
more-answered systems kept [] h = refl
more-answered systems kept (m ∷ ms) h = ground (
  arith,
  more-answered systems kept ms,
  any-append (is_caller (or_else m.tool_call_id "")) systems kept,
)

joined-IsCompacted :
    (messages kept : List Msg)
    → any (is_orphan kept) kept ≡ false
    → ((p : Msg → Bool)
        → all p (keep (λ m. not (has_role "system" m)) messages) ≡ true
        → all p kept ≡ true)
    → IsCompacted messages (keep (has_role "system") messages ++ kept)
joined-IsCompacted messages kept answered part =
    let systems : List Msg = keep (has_role "system") messages in
    let others =
      part (λ m. not (has_role "system" m))
        (all-kept (λ (m : Msg). not (has_role "system" m)) messages) in
    let all_systems : all (has_role "system") systems ≡ true =
      all-kept (has_role "system") messages in
    record {
      systems =
          keep-append (has_role "system") systems kept
          ∙ ap₂ ◌++◌ (keep-all (has_role "system") systems all_systems)
              (keep-none (has_role "system") kept others)
          ∙ append-nil systems;
      answered =
          any-append (is_orphan (systems ++ kept)) systems kept
          ∙ ap₂ ◌||◌ (systems-answered (systems ++ kept) systems all_systems)
              (more-answered systems kept kept answered);
      part = λ p h.
          all-append p systems kept
          ∙ ap₂ ◌&&◌ (all-keep p (has_role "system") messages h)
              (part p (all-keep p (λ m. not (has_role "system" m)) messages h));
    }

-- A call always ends with an answer, if no assistant's message is itself the answer to a call. With at
-- most `keep_last` messages beside the system's the answer is the messages as they are. Otherwise it
-- has the same system messages, holds no `tool` message whose call is missing, and every message in it
-- is one of the conversation.
pub compact_messages_lem :
    (messages : List Msg) (keep_last : ℕ)
    → all is_plain_caller messages ≡ true
    → (result : List Msg) × (compact_messages messages keep_last ≡ some result)
      × (((length (keep (λ m. not (has_role "system" m)) messages) ≤ keep_last)
            × (result ≡ messages))
          ⊎ ((keep_last < length (keep (λ m. not (has_role "system" m)) messages))
              × IsCompacted messages result))
unfolding compact_messages
compact_messages_lem messages keep_last plain =
    let talk : List Msg = keep (λ m. not (has_role "system" m)) messages in
    let fits : length talk ≤ length messages =
      length-keep (λ (m : Msg). not (has_role "system" m)) messages in
    let talk_plain = all-keep is_plain_caller (λ m. not (has_role "system" m)) messages plain in
    elim (Bool-cases (leb (length messages) keep_last || leb (length talk) keep_last)) [
      | inl short ↦ (messages, rw short refl, inl (ground arith, refl))
      | inr long ↦
          let (kept, settled, answered, part) =
            compact_conversation-Settled talk talk_plain keep_last in
          (
            keep (has_role "system") messages ++ kept,
            rw (long, settled) refl,
            inr (ground arith, joined-IsCompacted messages kept answered part),
          )
    ]
