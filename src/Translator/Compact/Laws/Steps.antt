-- ===== src/Translator/Compact/Laws/Steps.antt =====
-- One round of the repair in `compact_messages` (app/translator.py).
use custorouter.Common.{
  ℕ, zero, suc, ◌≤◌, ◌<◌, ◌≡◌, refl, sym, subst, eq_refl, Bool, true, false, not, ◌&&◌, ◌||◌,
  Option, none, some, String, List, [], ◌∷◌, ◌++◌, arith, ltb, if◌then◌else◌, length, drop, keep,
  any, all, index_where, is_some, inl, inr, Bool-cases, Option-cases, or_else, nonempty,
  length-keep,
}
use custorouter.Translator.Compact.{
  Msg, Repair, has_role, is_id, is_caller, is_active, is_orphan, repair, first_repair, without_id,
}

-- No assistant's message answers a call.
abbrev pub is_plain_caller : Msg → Bool
is_plain_caller m = not (has_role "assistant" m) || not (is_some m.tool_call_id)

module _ {ℓ} {A : Type ℓ} (p : A → Bool) where
  pub any-drop :
      (n : ℕ) (xs : List A) {i : ℕ} → index_where p xs ≡ some i → n ≤ i → any p (drop n xs) ≡ true
  any-drop zero [] e h = cc
  any-drop zero (x ∷ xs) e h = elim (Option-cases (index_where p xs)) [
    | inl missing ↦ ground arith
    | inr (j, found) ↦ ground (arith, any-drop zero xs found (omega arith))
  ]
  any-drop (suc n) [] e h = cc
  any-drop (suc n) (x ∷ xs) {i} e h = elim (Option-cases (index_where p xs)) [
    | inl missing ↦ absurd (ground arith)
    | inr (j, found) ↦ any-drop n xs found (ground arith)
  ]

  pub any-of_drop : (n : ℕ) (xs : List A) → any p (drop n xs) ≡ true → any p xs ≡ true
  any-of_drop zero xs h = h
  any-of_drop (suc n) [] h = h
  any-of_drop (suc n) (x ∷ xs) h = ground (arith, any-of_drop n xs h)

  pub any-append : (xs ys : List A) → any p (xs ++ ys) ≡ (any p xs || any p ys)
  any-append [] ys = refl
  any-append (x ∷ xs) ys = ground (arith, any-append xs ys)

  pub all-append : (xs ys : List A) → all p (xs ++ ys) ≡ (all p xs && all p ys)
  all-append [] ys = refl
  all-append (x ∷ xs) ys = ground (arith, all-append xs ys)

  pub keep-append : (xs ys : List A) → keep p (xs ++ ys) ≡ keep p xs ++ keep p ys
  keep-append [] ys = refl
  keep-append (x ∷ xs) ys = elim (Bool-cases (p x)) [
    | inl passes ↦ rw (passes, keep-append xs ys) refl
    | inr fails ↦ rw (fails, keep-append xs ys) refl
  ]

  pub keep-all : (xs : List A) → all p xs ≡ true → keep p xs ≡ xs
  keep-all [] h = refl
  keep-all (x ∷ xs) h = ground (arith, keep-all xs)

  pub keep-none : (xs : List A) → all (λ x. not (p x)) xs ≡ true → keep p xs ≡ []
  keep-none [] h = refl
  keep-none (x ∷ xs) h = ground (arith, keep-none xs)

  pub all-kept : (xs : List A) → all p (keep p xs) ≡ true
  all-kept [] = refl
  all-kept (x ∷ xs) = ground (arith, all-kept xs)

  pub all-drop : (n : ℕ) (xs : List A) → all p xs ≡ true → all p (drop n xs) ≡ true
  all-drop zero xs h = h
  all-drop (suc n) [] h = refl
  all-drop (suc n) (x ∷ xs) h = all-drop n xs (ground arith)

  pub all-keep : (q : A → Bool) (xs : List A) → all p xs ≡ true → all p (keep q xs) ≡ true
  all-keep q [] h = refl
  all-keep q (x ∷ xs) h = ground (arith, all-keep q xs)

  pub length-keep-lt :
      (xs : List A) → any p xs ≡ true → length (keep (λ x. not (p x)) xs) < length xs
  length-keep-lt [] h = cc
  length-keep-lt (x ∷ xs) h = ground (arith, length-keep-lt xs, length-keep (λ y. not (p y)) xs)

pub length-drop-le {ℓ} : {A : Type ℓ} (n : ℕ) (xs : List A) → length (drop n xs) ≤ length xs
length-drop-le zero xs = omega arith
length-drop-le (suc n) [] = omega arith
length-drop-le (suc n) (x ∷ xs) = omega (arith, length-drop-le n xs)

own_id : (o : Option String) → nonempty (or_else o "") ≡ true → is_id (or_else o "") o ≡ true
own_id none h = cc
own_id (some i) h = eq_refl i

-- The removal of the answers to a call takes no caller away.
pub is_active-without :
    (tcid gone : String) (kept : List Msg)
    → all is_plain_caller kept ≡ true
    → is_active tcid kept ≡ true
    → is_active tcid (without_id gone kept) ≡ true
is_active-without tcid gone [] plain h = h
is_active-without tcid gone (m ∷ ms) plain h = elim (Option-cases m.tool_call_id) [
  | inl free ↦ ground (arith, is_active-without tcid gone ms)
  | inr (i, answers) ↦ ground (arith, is_active-without tcid gone ms)
]

module _ (conversation : List Msg) (cut : ℕ) where
  repair-found :
      (tcid : String) {i : ℕ}
      → index_where (is_caller tcid) conversation ≡ some i
      → repair conversation cut tcid ≡ (if ltb i cut then Repair.move_cut i else Repair.leave)
  unfolding repair
  repair-found tcid e = rw (e, repair) refl

  repair-missing :
      (tcid : String)
      → index_where (is_caller tcid) conversation ≡ none
      → repair conversation cut tcid ≡ Repair.remove_id tcid
  unfolding repair
  repair-missing tcid e = rw (e, repair) refl

  repair-move : (tcid : String) {i : ℕ} → repair conversation cut tcid ≡ Repair.move_cut i → i < cut
  repair-move tcid e = elim (Option-cases (index_where (is_caller tcid) conversation)) [
    | inl missing ↦ absurd (ground (arith, repair-missing tcid missing))
    | inr (j, found) ↦ ground (arith, repair-found tcid found)
  ]

  repair-remove :
      (tcid : String) {gone : String}
      → repair conversation cut tcid ≡ Repair.remove_id gone
      → gone ≡ tcid
  repair-remove tcid e = elim (Option-cases (index_where (is_caller tcid) conversation)) [
    | inl missing ↦ ground (arith, repair-missing tcid missing)
    | inr (j, found) ↦ absurd (ground (arith, repair-found tcid found))
  ]

  pub repair-leave :
      (tcid : String)
      → repair conversation cut tcid ≡ Repair.leave
      → is_active tcid (drop cut conversation) ≡ true
  repair-leave tcid e = elim (Option-cases (index_where (is_caller tcid) conversation)) [
    | inl missing ↦ absurd (ground (arith, repair-missing tcid missing))
    | inr (j, found) ↦
        any-drop (is_caller tcid) cut conversation found (ground (arith, repair-found tcid found))
  ]

  module _ (kept : List Msg) where
    first_repair-skip :
        (m : Msg) (ms : List Msg)
        → is_orphan kept m ≡ false
        → first_repair conversation cut kept (m ∷ ms) ≡ first_repair conversation cut kept ms
    unfolding first_repair
    first_repair-skip m ms e = rw e refl

    first_repair-orphan :
        (m : Msg) (ms : List Msg) {r : Repair}
        → is_orphan kept m ≡ true
        → repair conversation cut (or_else m.tool_call_id "") ≡ r
        → first_repair conversation cut kept (m ∷ ms) ≡ elim r [
          | Repair.leave ↦ first_repair conversation cut kept ms
          | Repair.move_cut i ↦ Repair.move_cut i
          | Repair.remove_id tcid ↦ Repair.remove_id tcid
        ]
    unfolding first_repair
    first_repair-orphan m ms e f = rw (e, f, first_repair) refl

    -- What each outcome of the loop over the kept messages tells.
    abbrev pub Explained : List Msg → Repair → Type 0
    Explained ms (Repair.move_cut i) = i < cut
    Explained ms (Repair.remove_id tcid) = any (λ m. is_id tcid m.tool_call_id) ms ≡ true
    Explained ms Repair.leave =
        ((tcid : String) → repair conversation cut tcid ≡ Repair.leave → is_active tcid kept ≡ true)
        → any (is_orphan kept) ms ≡ false

    Explained-later :
        (m : Msg) (ms : List Msg) (r : Repair)
        → is_orphan kept m ≡ false
        → Explained ms r
        → Explained (m ∷ ms) r
    Explained-later m ms (Repair.move_cut i) e h = h
    Explained-later m ms (Repair.remove_id tcid) e h = ground (arith, h)
    Explained-later m ms Repair.leave e h = λ active. ground (arith, h active)

    Explained-left :
        (m : Msg) (ms : List Msg) (r : Repair)
        → is_orphan kept m ≡ true
        → repair conversation cut (or_else m.tool_call_id "") ≡ Repair.leave
        → Explained ms r
        → Explained (m ∷ ms) r
    Explained-left m ms (Repair.move_cut i) e left h = h
    Explained-left m ms (Repair.remove_id tcid) e left h = ground (arith, h)
    Explained-left m ms Repair.leave e left h =
        λ active. absurd (ground (arith, active (or_else m.tool_call_id "") left))

    orphan_id :
        (m : Msg)
        → is_orphan kept m ≡ true
        → is_id (or_else m.tool_call_id "") m.tool_call_id ≡ true
    orphan_id m e = own_id m.tool_call_id (ground arith)

    first_repair_at :
        (m : Msg) (ms : List Msg) (r : Repair)
        → is_orphan kept m ≡ true
        → repair conversation cut (or_else m.tool_call_id "") ≡ r
        → Explained ms (first_repair conversation cut kept ms)
        → Explained (m ∷ ms) (first_repair conversation cut kept (m ∷ ms))
    first_repair_at m ms Repair.leave e f h =
        subst (Explained (m ∷ ms)) (sym (first_repair-orphan m ms e f))
          (Explained-left m ms (first_repair conversation cut kept ms) e f h)
    first_repair_at m ms (Repair.move_cut i) e f h =
        subst (Explained (m ∷ ms)) (sym (first_repair-orphan m ms e f))
          (repair-move (or_else m.tool_call_id "") f)
    first_repair_at m ms (Repair.remove_id tcid) e f h =
        let same = repair-remove (or_else m.tool_call_id "") f in
        subst (Explained (m ∷ ms)) (sym (first_repair-orphan m ms e f))
          (ground (arith, orphan_id m e, same))

    pub first_repair_lem : (ms : List Msg) → Explained ms (first_repair conversation cut kept ms)
    unfolding first_repair
    first_repair_lem [] = λ active. refl
    first_repair_lem (m ∷ ms) = elim (Bool-cases (is_orphan kept m)) [
      | inr fine ↦
          subst (Explained (m ∷ ms)) (sym (first_repair-skip m ms fine)) (
            Explained-later m ms (first_repair conversation cut kept ms) fine (first_repair_lem ms))
      | inl orphan ↦
          first_repair_at m ms (repair conversation cut (or_else m.tool_call_id "")) orphan refl
            (first_repair_lem ms)
    ]
