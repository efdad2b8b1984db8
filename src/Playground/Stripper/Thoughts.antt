-- ===== src/Playground/Stripper/Thoughts.antt =====
-- A thought between its tags is not shown (`_ThinkingStripper`, app/routers/playground.py).
use text.Mathlib.TextLemmas.{nil-append, cons-append, append-nil}
use Prim.Native.Char.{Char, code}
use custorouter.Common.{
  ℕ, suc, ◌+◌, ◌-◌, ◌≡◌, refl, sym, ap, ◌∙◌, Bool, true, false, none, some, String, List, [], ◌∷◌,
  arith, inl, inr, Option-cases, Bool-cases, ◌==◌, nonempty, text_length, take_text, drop_text,
  subst,
}
use custorouter.Keys.Providers.{Unicode}
use custorouter.Keys.Add.{◌+text+◌}
use custorouter.Translator.Tags.{
  find_open, find_close, search_tag, after, at_boundary, to_bracket, named_tag, tag_of, tag_names,
  is_word, fold_case,
}
use custorouter.Translator.Tags.Laws.{is_plain, find_open-plain, fold_case-angle}
use custorouter.Playground.Stripper.{Stripper, new_stripper, show_text, strip_rounds, feed}

-- What a match needs is in the text, so more text behind it changes nothing.
after-append :
    (s p r : String) {q : String} → after s p ≡ some q → after (s +text+ r) p ≡ some (q +text+ r)
unfolding after
after-append s String.[] r {q} e =
    let same : s ≡ q = ground arith in ap (λ (t : String). some (t +text+ r)) same
after-append String.[] (String.◌∷◌ d p) r e = cc
after-append (String.◌∷◌ c s) (String.◌∷◌ d p) r e =
    rw (cons-append c s r) (elim (Bool-cases (fold_case (code c) == code d)) [
      | inl same ↦ rw same (after-append s p r (ground arith))
      | inr differs ↦ absurd (ground arith)
    ])

to_bracket-append :
    (s r : String) {n : ℕ} → to_bracket s ≡ some n → to_bracket (s +text+ r) ≡ some n
unfolding to_bracket
to_bracket-append String.[] r e = cc
to_bracket-append (String.◌∷◌ c s) r {n} e =
    rw (cons-append c s r) (elim (Bool-cases (code c == b'>')) [
      | inl here ↦ rw here (ground arith)
      | inr there ↦ elim (Option-cases (to_bracket s)) [
        | inl missing ↦ absurd (ground arith)
        | inr (k, found) ↦ rw (there, to_bracket-append s r found) (ground arith)
      ]
    ])

at_boundary-append :
    (wide : ℕ → Bool) (s r : String) {n : ℕ}
    → to_bracket s ≡ some n
    → at_boundary wide (s +text+ r) ≡ at_boundary wide s
unfolding to_bracket at_boundary
at_boundary-append wide String.[] r e = cc
at_boundary-append wide (String.◌∷◌ c s) r e = rw (cons-append c s r) refl

named_tag-append :
    (wide : ℕ → Bool) (start name s r : String) {n : ℕ}
    → named_tag wide start name s ≡ some n
    → named_tag wide start name (s +text+ r) ≡ some n
unfolding named_tag
named_tag-append wide start name s r {n} e = elim (Option-cases (after s start)) [
  | inl missing ↦ absurd (ground arith)
  | inr (p, at) ↦ elim (Option-cases (after p name)) [
    | inl missing ↦ absurd (ground arith)
    | inr (q, behind) ↦ elim (Option-cases (to_bracket q)) [
      | inl missing ↦ absurd (ground arith)
      | inr (k, closed) ↦
          rw
            (
              after-append s start r at,
              named_tag,
              after-append p name r behind,
              at_boundary-append wide q r closed,
              to_bracket-append q r closed,
            )
            (ground arith)
    ]
  ]
]

nonempty-append : (s r : String) → nonempty s ≡ true → nonempty (s +text+ r) ≡ true
nonempty-append String.[] r h = cc
nonempty-append (String.◌∷◌ c s) r h = ap nonempty (cons-append c s r)

take_text-append : (s r : String) → take_text (text_length s) (s +text+ r) ≡ s
unfolding take_text
take_text-append String.[] r = refl
take_text-append (String.◌∷◌ c s) r =
    rw (cons-append c s r) (ap (String.◌∷◌ c) (take_text-append s r))

drop_text-append :
    (s r : String) (n : ℕ) → drop_text (text_length s + n) (s +text+ r) ≡ drop_text n r
unfolding drop_text
drop_text-append String.[] r n =
    let e : 0 + n ≡ n = omega arith in
    ap (λ (k : ℕ). drop_text k ("" +text+ r)) e ∙ ap (drop_text n) (nil-append r)
drop_text-append (String.◌∷◌ c s) r n =
    let e : suc (text_length s) + n ≡ suc (text_length s + n) = omega arith in
    ap (λ (k : ℕ). drop_text k (String.◌∷◌ c s +text+ r)) e
    ∙ rw (cons-append c s r) (drop_text-append s r n)

-- A tag at the beginning of the text.
search_tag_here :
    (wide : ℕ → Bool) (start s : String) {n : ℕ}
    → tag_of wide start tag_names s ≡ some n
    → nonempty s ≡ true
    → search_tag wide start s ≡ some (0, n)
unfolding search_tag
search_tag_here wide start String.[] h k = cc
search_tag_here wide start (String.◌∷◌ c s) h k = rw (search_tag, h) refl

after-other :
    (c d : Char) (s p : String)
    → (code c == b'<') ≡ false
    → code d ≡ b'<'
    → after (String.◌∷◌ c s) (String.◌∷◌ d p) ≡ none
unfolding after
after-other c d s p h k = ground (arith, fold_case-angle (code c) h)

tag_of-other :
    (wide : ℕ → Bool) (start : String) (names : List String) (s : String)
    → after s start ≡ none
    → tag_of wide start names s ≡ none
unfolding tag_of named_tag
tag_of-other wide start [] s h = refl
tag_of-other wide start (name ∷ names) s h =
    rw (h, tag_of, named_tag) (tag_of-other wide start names s h)

-- Text without `<` in front of a tag moves it on.
search_tag-append :
    (wide : ℕ → Bool) (d : Char) (p a x : String) {n : ℕ}
    → code d ≡ b'<'
    → is_plain a ≡ true
    → search_tag wide (String.◌∷◌ d p) x ≡ some (0, n)
    → search_tag wide (String.◌∷◌ d p) (a +text+ x) ≡ some (text_length a, n)
unfolding search_tag
search_tag-append wide d p String.[] x k h e = rw (nil-append x) e
search_tag-append wide d p (String.◌∷◌ c s) x k h e =
    let start = String.◌∷◌ d p in
    let other : (code c == b'<') ≡ false = ground arith in
    let no_tag =
      tag_of-other wide start tag_names (String.◌∷◌ c (s +text+ x))
        (after-other c d (s +text+ x) p other k) in
    let ih = search_tag-append wide d p s x k (ground arith) e in
    rw (cons-append c s x, search_tag, no_tag, ih) refl

think_tag : (wide : ℕ → Bool) → named_tag wide "<" "think" "<think>" ≡ some 7
unfolding named_tag after at_boundary to_bracket is_word fold_case
think_tag wide = refl

end_tag : (wide : ℕ → Bool) → named_tag wide "</" "think" "</think>" ≡ some 8
unfolding named_tag after at_boundary to_bracket is_word fold_case
end_tag wide = refl

tag_of_first :
    (wide : ℕ → Bool) (start s : String) {n : ℕ}
    → named_tag wide start "think" s ≡ some n
    → tag_of wide start tag_names s ≡ some n
unfolding tag_of
tag_of_first wide start s h = rw (tag_of, h) refl

find_open-append :
    (wide : ℕ → Bool) (a r : String)
    → is_plain a ≡ true
    → find_open wide (a +text+ ("<think>" +text+ r)) ≡ some (text_length a, 7)
unfolding find_open
find_open-append wide a r h = search_tag-append wide "<" "" a ("<think>" +text+ r) refl h (
    search_tag_here wide "<" ("<think>" +text+ r)
      (tag_of_first wide "<" ("<think>" +text+ r)
        (named_tag-append wide "<" "think" "<think>" r (think_tag wide)))
      (nonempty-append "<think>" r refl))

find_close-append :
    (wide : ℕ → Bool) (a r : String)
    → is_plain a ≡ true
    → find_close wide (a +text+ ("</think>" +text+ r)) ≡ some (text_length a, 8)
unfolding find_close
find_close-append wide a r h = search_tag-append wide "<" "/" a ("</think>" +text+ r) refl h (
    search_tag_here wide "</" ("</think>" +text+ r)
      (tag_of_first wide "</" ("</think>" +text+ r)
        (named_tag-append wide "</" "think" "</think>" r (end_tag wide)))
      (nonempty-append "</think>" r refl))

text_length-append : (s r : String) → text_length (s +text+ r) ≡ text_length s + text_length r
text_length-append String.[] r = omega (arith, ap text_length (nil-append r))
text_length-append (String.◌∷◌ c s) r =
    omega (arith, ap text_length (cons-append c s r), text_length-append s r)

nonempty-append_right : (s r : String) → nonempty r ≡ true → nonempty (s +text+ r) ≡ true
nonempty-append_right String.[] r h = ap nonempty (nil-append r) ∙ h
nonempty-append_right (String.◌∷◌ c s) r h = ap nonempty (cons-append c s r)

-- What is left behind the closing tag, or the opening one.
drop_text-tag :
    (a tag r : String) → drop_text (text_length a + text_length tag) (a +text+ (tag +text+ r)) ≡ r
unfolding drop_text
drop_text-tag a tag r =
    let e : text_length tag ≡ text_length tag + 0 = omega arith in
    drop_text-append a (tag +text+ r) (text_length tag)
    ∙ (ap (λ (k : ℕ). drop_text k (tag +text+ r)) e ∙ drop_text-append tag r 0)

last_round :
    (wide : ℕ → Bool) (u : Unicode) (fuel : ℕ) (shown b : String)
    → is_plain b ≡ true
    → strip_rounds wide u true (suc fuel) shown (record { buffer = b; inside = false })
      ≡ (shown +text+ b, new_stripper)
unfolding strip_rounds show_text
last_round wide u fuel shown String.[] h =
    ap (λ (x : String). (x, new_stripper)) (sym (append-nil shown))
last_round wide u fuel shown (String.◌∷◌ c b) h =
    rw (strip_rounds, find_open-plain wide (String.◌∷◌ c b) h) refl

closing_round :
    (wide : ℕ → Bool) (u : Unicode) (fuel : ℕ) (shown t b : String)
    → is_plain t ≡ true
    → strip_rounds wide u true
        (suc fuel)
        shown
        (record { buffer = t +text+ ("</think>" +text+ b); inside = true })
      ≡ strip_rounds wide u true fuel shown (record { buffer = b; inside = false })
unfolding strip_rounds
closing_round wide u fuel shown t b h =
    let filled =
      nonempty-append_right t ("</think>" +text+ b) (nonempty-append "</think>" b refl) in
    rw (filled, strip_rounds, find_close-append wide t b h, drop_text-tag t "</think>" b) refl

opening_round :
    (wide : ℕ → Bool) (u : Unicode) (fuel : ℕ) (a r : String)
    → is_plain a ≡ true
    → strip_rounds wide u true
        (suc fuel)
        ""
        (record { buffer = a +text+ ("<think>" +text+ r); inside = false })
      ≡ strip_rounds wide u true fuel a (record { buffer = r; inside = true })
unfolding strip_rounds
opening_round wide u fuel a r h =
    let x = "<think>" +text+ r in
    let filled = nonempty-append_right a x (nonempty-append "<think>" r refl) in
    let before = nil-append (take_text (text_length a) (a +text+ x)) ∙ take_text-append a x in
    rw (filled, strip_rounds, find_open-append wide a r h, before, drop_text-tag a "<think>" r) refl

-- A thought is not shown: of a whole answer that is text, a thought between `<think>` and `</think>`
-- and text again, none of the three holding a `<`, exactly the two texts are shown, and nothing of
-- it waits.
pub feed-thought :
    (wide : ℕ → Bool) (u : Unicode) (a t b : String)
    → is_plain a ≡ true
    → is_plain t ≡ true
    → is_plain b ≡ true
    → feed wide u true (a +text+ ("<think>" +text+ (t +text+ ("</think>" +text+ b)))) new_stripper
      ≡ (a +text+ b, new_stripper)
unfolding feed
feed-thought wide u a t b h k l =
    let r = t +text+ ("</think>" +text+ b) in
    let whole = a +text+ ("<think>" +text+ r) in
    let start : Stripper = record { buffer = whole; inside = false } in
    let rest = text_length whole - 2 in
    let size : text_length whole ≡ suc (suc rest) =
      omega (arith, text_length-append a ("<think>" +text+ r), text_length-append "<think>" r) in
    subst
      (λ (x : String).
        strip_rounds wide u true (suc (text_length x)) "" (record { buffer = x; inside = false })
        ≡ (a +text+ b, new_stripper))
      (sym (nil-append whole))
      (ap (λ (n : ℕ). strip_rounds wide u true (suc n) "" start) size
        ∙ (opening_round wide u (suc (suc rest)) a r h
            ∙ (closing_round wide u (suc rest) a t b k ∙ last_round wide u rest a b l)))
