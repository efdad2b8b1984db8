-- ===== src/Translator/Tags/Laws.antt =====
-- What a match of a thinking tag takes of the text (app/translator.py).
use Prim.Native.Char.{Char, code}
use custorouter.Common.{
  ℕ, ◌+◌, ◌-◌, ◌<◌, ◌≡◌, refl, Bool, true, false, none, some, String, List, [], ◌∷◌, arith, ◌==◌,
  inl, inr, Option-cases, text_length, ◌&&◌, not,
}
use custorouter.Translator.Tags.{
  after, named_tag, tag_of, search_tag, find_open, tag_names, fold_case,
}

-- No `<` in the text.
abbrev pub is_plain : String → Bool
is_plain String.[] = true
is_plain (String.◌∷◌ c s) = not (code c == b'<') && is_plain s

named_tag_pos :
    (wide : ℕ → Bool) (start name s : String) {n : ℕ}
    → 0 < text_length start
    → named_tag wide start name s ≡ some n
    → 0 < n
unfolding named_tag
named_tag_pos wide start name s h e = ground arith

tag_of_pos :
    (wide : ℕ → Bool) (start : String) (names : List String) (s : String) {n : ℕ}
    → 0 < text_length start
    → tag_of wide start names s ≡ some n
    → 0 < n
unfolding tag_of
tag_of_pos wide start [] s h e = cc
tag_of_pos wide start (name ∷ names) s h e = elim (Option-cases (named_tag wide start name s)) [
  | inl missing ↦ tag_of_pos wide start names s h (ground arith)
  | inr (k, found) ↦ ground (arith, named_tag_pos wide start name s h found)
]

-- A match is not empty.
pub search_tag_pos :
    (wide : ℕ → Bool) (start s : String) {i n : ℕ}
    → 0 < text_length start
    → search_tag wide start s ≡ some (i, n)
    → 0 < n
unfolding search_tag
search_tag_pos wide start String.[] h e = cc
search_tag_pos wide start (String.◌∷◌ c s) h e =
    elim (Option-cases (tag_of wide start tag_names (String.◌∷◌ c s))) [
      | inr (k, found) ↦ ground (arith, tag_of_pos wide start tag_names (String.◌∷◌ c s) h found)
      | inl missing ↦ elim (Option-cases (search_tag wide start s)) [
        | inl none_left ↦ ground arith
        | inr ((j, k), found) ↦ ground (arith, search_tag_pos wide start s h found)
      ]
    ]

-- A text with a match is not empty.
pub search_tag_fits :
    (wide : ℕ → Bool) (start s : String) {m : ℕ × ℕ}
    → search_tag wide start s ≡ some m
    → 0 < text_length s
unfolding search_tag
search_tag_fits wide start String.[] e = cc
search_tag_fits wide start (String.◌∷◌ c s) e = omega arith

-- So what is left behind a match is shorter.
pub search_tag_cuts :
    (wide : ℕ → Bool) (start s : String) (i n : ℕ)
    → 0 < text_length start
    → search_tag wide start s ≡ some (i, n)
    → text_length s - (i + n) < text_length s
search_tag_cuts wide start s i n h e =
    omega (arith, search_tag_pos wide start s h e, search_tag_fits wide start s e)

pub search_tag-tail :
    (wide : ℕ → Bool) (start : String) (c : Char) (s : String)
    → search_tag wide start (String.◌∷◌ c s) ≡ none
    → search_tag wide start s ≡ none
unfolding search_tag
search_tag-tail wide start c s e = ground arith

pub fold_case-angle : (c : ℕ) → (c == b'<') ≡ false → (fold_case c == b'<') ≡ false
unfolding fold_case
fold_case-angle c h = ground arith

after-plain : (s : String) → is_plain s ≡ true → after s "<" ≡ none
unfolding after
after-plain String.[] h = refl
after-plain (String.◌∷◌ c s) h = ground (arith, fold_case-angle (code c))

tag_of-plain :
    (wide : ℕ → Bool) (names : List String) (s : String)
    → is_plain s ≡ true
    → tag_of wide "<" names s ≡ none
unfolding tag_of named_tag
tag_of-plain wide [] s h = refl
tag_of-plain wide (name ∷ names) s h =
    rw (after-plain s h, tag_of, named_tag) (tag_of-plain wide names s h)

-- Text without `<` holds no tag.
pub find_open-plain : (wide : ℕ → Bool) (s : String) → is_plain s ≡ true → find_open wide s ≡ none
unfolding find_open search_tag
find_open-plain wide String.[] h = refl
find_open-plain wide (String.◌∷◌ c s) h =
    ground (arith, tag_of-plain wide tag_names (String.◌∷◌ c s) h, find_open-plain wide s)
