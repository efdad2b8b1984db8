-- ===== src/Translator/Tags.antt =====
-- The regular expressions of app/translator.py that find a thinking tag, matched as `re.search` with
-- IGNORECASE matches them.
--
-- `wide` says which characters beyond ASCII `\w` takes. `[^>]*>` ends at the first `>`, since it holds
-- none itself.
pub mod Laws
use Prim.Native.Char.{code}
use Prim.Native.String
use custorouter.Common.{
  ℕ, suc, ◌+◌, Bool, true, false, ◌&&◌, ◌||◌, Option, none, some, ◌>>=◌, String, List, [], ◌∷◌, leb,
  ◌==◌, if◌then◌else◌, text_length, not,
}

-- `(think|thinking|thought|thoughts|thinking_process)`
abbrev pub tag_names : List String
tag_names = "think" ∷ "thinking" ∷ "thought" ∷ "thoughts" ∷ "thinking_process" ∷ []

-- A character as IGNORECASE compares it with a letter of a name: dotted and dotless i, long s and
-- the Kelvin sign beside the capitals.
unfoldable pub fold_case : ℕ → ℕ
fold_case c =
    if leb b'A' c && leb c b'Z'
    then c + 32
    else if c == 0x130 || c == 0x131
    then b'i'
    else if c == 0x17f
    then b's'
    else if c == 0x212a
    then b'k'
    else c

-- `\w`
unfoldable pub is_word : (ℕ → Bool) → ℕ → Bool
is_word wide c =
    if leb 128 c
    then wide c
    else ((leb b'0' c && leb c b'9')
        || (leb b'A' c && leb c b'Z')
        || (leb b'a' c && leb c b'z')
        || c == b'_')

-- `\b` behind a letter.
unfoldable pub at_boundary : (ℕ → Bool) → String → Bool
unfolding is_word
at_boundary wide String.[] = true
at_boundary wide (String.◌∷◌ c s) = not (is_word wide (code c))

-- The text behind a literal.
unfoldable pub after : String → String → Option String
unfolding fold_case
after s String.[] = some s
after String.[] (String.◌∷◌ d p) = none
after (String.◌∷◌ c s) (String.◌∷◌ d p) = if fold_case (code c) == code d then after s p else none

-- `[^>]*>`: how many characters it takes.
unfoldable pub to_bracket : String → Option ℕ
to_bracket String.[] = none
to_bracket (String.◌∷◌ c s) =
    if code c == b'>' then some 1 else (to_bracket s >>= λ n. some (suc n))

-- One name of the alternatives, behind `<` or `</`: how long the tag is.
unfoldable pub named_tag : (ℕ → Bool) → String → String → String → Option ℕ
unfolding after at_boundary to_bracket
named_tag wide start name s = do
  behind ← after s start
  rest ← after behind name
  n ← if at_boundary wide rest then to_bracket rest else none
  some (text_length start + text_length name + n)

-- The first name that matches.
unfoldable pub tag_of : (ℕ → Bool) → String → List String → String → Option ℕ
unfolding named_tag
tag_of wide start [] s = none
tag_of wide start (name ∷ names) s = elim (named_tag wide start name s) [
  | some n ↦ some n
  | none ↦ tag_of wide start names s
]

-- `re.search`: the leftmost match, by its start and its length.
unfoldable pub search_tag : (ℕ → Bool) → String → String → Option (ℕ × ℕ)
unfolding tag_of
search_tag wide start String.[] = none
search_tag wide start (String.◌∷◌ c s) = elim (tag_of wide start tag_names (String.◌∷◌ c s)) [
  | some n ↦ some (0, n)
  | none ↦ search_tag wide start s >>= λ m. some (suc m.0, m.1)
]

unfoldable pub find_open : (ℕ → Bool) → String → Option (ℕ × ℕ)
unfolding search_tag
find_open wide s = search_tag wide "<" s

unfoldable pub find_close : (ℕ → Bool) → String → Option (ℕ × ℕ)
unfolding search_tag
find_close wide s = search_tag wide "</" s
