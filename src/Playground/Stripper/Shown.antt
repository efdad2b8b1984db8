-- ===== src/Playground/Stripper/Shown.antt =====
-- What `_ThinkingStripper` shows (app/routers/playground.py).
use text.Mathlib.TextLemmas.{nil-append, cons-append}
use Prim.Native.Char.{Char, code}
use custorouter.Common.{
  ℕ, zero, suc, ◌-◌, ◌≡◌, refl, sym, ap, ◌∙◌, Bool, true, false, ◌&&◌, String, List, [], ◌∷◌, arith,
  inl, inr, Bool-cases, ◌==◌, ltb, nonempty, text_empty, text_length, take_text, drop_text, min,
  All, str_eq, eq_iff, subst,
}
use custorouter.Keys.Providers.{Unicode, lower, lower_in, lower_ascii}
use custorouter.Keys.Add.{◌+text+◌}
use custorouter.Translator.Tags.{
  find_open, search_tag, after, at_boundary, to_bracket, named_tag, tag_of, is_word, fold_case,
}
use custorouter.Translator.Tags.Laws.{is_plain, find_open-plain}
use custorouter.Playground.Stripper.{
  new_stripper, has_suffix, longest_tail, partial_tag_tail_length, open_prefixes, show_text,
  strip_rounds, feed, feed_all,
}

is_plain-drop : (n : ℕ) (s : String) → is_plain s ≡ true → is_plain (drop_text n s) ≡ true
unfolding drop_text
is_plain-drop zero s h = h
is_plain-drop (suc n) String.[] h = refl
is_plain-drop (suc n) (String.◌∷◌ c s) h = is_plain-drop n s (ground arith)

has_suffix-plain : (s p : String) → is_plain s ≡ true → is_plain p ≡ false → has_suffix s p ≡ false
unfolding has_suffix
has_suffix-plain s p h k =
    let n = text_length s - text_length p in
    let d = is_plain-drop n s h in
    let e = eq_iff (drop_text n s) p in
    elim (Bool-cases (str_eq (drop_text n s) p)) [
      | inl same ↦ absurd (ground (arith, ap is_plain (e.0 same)))
      | inr differs ↦ ground arith
    ]

-- The first character is `<`.
abbrev leads : String → Bool
leads String.[] = false
leads (String.◌∷◌ c s) = code c == b'<'

take_text-leads : (n : ℕ) (p : String) → leads p ≡ true → is_plain (take_text (suc n) p) ≡ false
unfolding take_text
take_text-leads n String.[] h = cc
take_text-leads n (String.◌∷◌ c s) h = ground arith

longest_tail-plain :
    (low prefix : String) (n : ℕ)
    → is_plain low ≡ true
    → leads prefix ≡ true
    → longest_tail low prefix n ≡ 0
unfolding longest_tail
longest_tail-plain low prefix zero h k = refl
longest_tail-plain low prefix (suc n) h k =
    rw (has_suffix-plain low (take_text (suc n) prefix) h (take_text-leads n prefix k))
      (longest_tail-plain low prefix n h k)

tail-plain :
    (u : Unicode) (value : String) (prefixes : List String)
    → is_plain (lower u value) ≡ true
    → All (λ (p : String). leads p ≡ true) prefixes
    → partial_tag_tail_length u value prefixes ≡ 0
unfolding partial_tag_tail_length
tail-plain u value [] h k = refl
tail-plain u value (prefix ∷ prefixes) h k = omega (
  arith,
  longest_tail-plain (lower u value) prefix (min (text_length prefix) (text_length value)) h k.0,
  tail-plain u value prefixes h k.1,
)

is_plain-append : (s t : String) → is_plain (s +text+ t) ≡ (is_plain s && is_plain t)
is_plain-append String.[] t = ap is_plain (nil-append t)
is_plain-append (String.◌∷◌ c s) t =
    let e = ap is_plain (cons-append c s t) in ground (arith, is_plain-append s t)

is_plain-cons :
    (c : Char) (s : String)
    → (code c == b'<') ≡ false
    → is_plain s ≡ true
    → is_plain (String.◌∷◌ c s) ≡ true
is_plain-cons c s h k = ground arith

both_true : {a b : Bool} → a ≡ true → b ≡ true → (a && b) ≡ true
both_true h k = ground arith

lower_in-plain :
    (c : Char) (as_ bs : String)
    → is_plain bs ≡ true
    → (code c == b'<') ≡ false
    → (code (lower_in c as_ bs) == b'<') ≡ false
lower_in-plain c String.[] bs h k = k
lower_in-plain c (String.◌∷◌ a as_) String.[] h k = k
lower_in-plain c (String.◌∷◌ a as_) (String.◌∷◌ b bs) h k = ground (arith, lower_in-plain c as_ bs)

-- No character beyond ASCII has a `<` in its small letters, as in Unicode.
abbrev pub IsTame : Unicode → Type 0
IsTame u = (c : Char) → is_plain (u.lower_other c) ≡ true

lower-plain :
    (u : Unicode) (s : String) → IsTame u → is_plain s ≡ true → is_plain (lower u s) ≡ true
unfolding lower
lower-plain u String.[] tame h = refl
lower-plain u (String.◌∷◌ c s) tame h =
    let ih = lower-plain u s tame (ground arith) in
    elim (Bool-cases (ltb (code c) 128)) [
      | inl ascii ↦
          let small =
            lower_in-plain c "ABCDEFGHIJKLMNOPQRSTUVWXYZ" "abcdefghijklmnopqrstuvwxyz" refl
              (ground arith) in
          rw ascii (is_plain-cons (lower_ascii c) (lower u s) small ih)
      | inr beyond ↦
          rw beyond (is_plain-append (u.lower_other c) (lower u s) ∙ both_true (tame c) ih)
    ]

take_text_all : (s : String) → take_text (text_length s) s ≡ s
unfolding take_text
take_text_all String.[] = refl
take_text_all (String.◌∷◌ c s) = ap (String.◌∷◌ c) (take_text_all s)

drop_text_all : (s : String) → drop_text (text_length s) s ≡ ""
unfolding drop_text
drop_text_all String.[] = refl
drop_text_all (String.◌∷◌ c s) = drop_text_all s

length_some : (s : String) → nonempty s ≡ true → (text_length s == 0) ≡ false
length_some String.[] h = cc
length_some (String.◌∷◌ c s) h = ground arith

show_text-plain :
    (wide : ℕ → Bool) (u : Unicode) (text : String)
    → is_plain (lower u text) ≡ true
    → nonempty text ≡ true
    → show_text wide u false "" (record { buffer = text; inside = false }) ≡ (text, new_stripper)
unfolding show_text
show_text-plain wide u text h some_text =
    let e = tail-plain u text open_prefixes h (refl, (refl, (refl, (refl, (refl, tt))))) in
    let size : text_length text - partial_tag_tail_length u text open_prefixes ≡ text_length text =
      omega (arith, e) in
    let filled = length_some text some_text in
    rw (size, filled, drop_text_all text, take_text_all text, nil-append text) refl

rounds-plain :
    (wide : ℕ → Bool) (u : Unicode) (fuel : ℕ) (text : String)
    → IsTame u
    → is_plain text ≡ true
    → strip_rounds wide u false (suc fuel) "" (record { buffer = text; inside = false })
      ≡ (text, new_stripper)
unfolding strip_rounds
rounds-plain wide u fuel text tame h = elim (Bool-cases (nonempty text)) [
  | inr bare ↦ rw (text_empty text bare) refl
  | inl filled ↦
      rw (filled, strip_rounds, find_open-plain wide text h)
        (show_text-plain wide u text (lower-plain u text tame h) filled)
]

feed-plain :
    (wide : ℕ → Bool) (u : Unicode) (text : String)
    → IsTame u
    → is_plain text ≡ true
    → feed wide u false text new_stripper ≡ (text, new_stripper)
unfolding feed
feed-plain wide u text tame h =
    subst
      (λ (b : String).
        strip_rounds wide u false (suc (text_length b)) "" (record { buffer = b; inside = false })
        ≡ (text, new_stripper))
      (sym (nil-append text)) (rounds-plain wide u (text_length text) text tame h)

-- Ordinary text is not held up: text without `<` is shown chunk by chunk as it comes, nothing of
-- it waits for the next chunk, and the stripper is as new behind it.
pub feed_all-plain :
    (wide : ℕ → Bool) (u : Unicode) (texts : List String)
    → IsTame u
    → All (λ (t : String). is_plain t ≡ true) texts
    → feed_all wide u texts new_stripper ≡ (texts, new_stripper)
unfolding feed_all
feed_all-plain wide u [] tame h = refl
feed_all-plain wide u (text ∷ texts) tame h =
    rw (feed-plain wide u text tame h.0, feed_all-plain wide u texts tame h.1) refl

feed-attribute :
    (wide : ℕ → Bool) (u : Unicode)
    → feed wide u false "<think " new_stripper ≡ ("<think ", new_stripper)
unfolding feed strip_rounds show_text find_open search_tag tag_of named_tag after at_boundary
    to_bracket is_word fold_case partial_tag_tail_length longest_tail has_suffix lower take_text
    drop_text
feed-attribute wide u = refl

-- A tag with an attribute is missed if a chunk ends within it: whatever follows without a `<`, the
-- rest of the tag and the thought included, is shown.
pub feed_all-attribute :
    (wide : ℕ → Bool) (u : Unicode) (text : String)
    → IsTame u
    → is_plain text ≡ true
    → feed_all wide u ("<think " ∷ text ∷ []) new_stripper ≡ ("<think " ∷ text ∷ [], new_stripper)
unfolding feed_all
feed_all-attribute wide u text tame h =
    rw (feed-attribute wide u, feed-plain wide u text tame h) refl
