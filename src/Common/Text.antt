-- ===== src/Common/Text.antt =====
-- Python text: the operations of `str` that the program uses, over the native strings.
use Prim.Native.Nat.{ℕ, zero, suc, ◌+◌}
use Prim.Native.Char.{Char, code}
use Prim.Native.String
use Prim.Native.String.{String}
use mathlib.Core.Path.{◌≡◌, refl}
use mathlib.Core.Logic.{◌≢◌}
use mathlib.Core.Bool.{Bool, true, false, ◌&&◌, ◌||◌}
use mathlib.Core.Option.{Option, none, some}
use mathlib.Core.List.{List, [], ◌∷◌, ◌++◌}
use custorouter.Common.Lists.{get_elem?, snoc}
use native.Mathlib.Omega.{arith}
use text.Mathlib.Text.{◌==◌ as str_eq}
use text.Mathlib.TextEquality.{eq_iff}
use custorouter.Common.Tests.{◌==◌, leb, if◌then◌else◌}

-- `bool(s)`
abbrev pub nonempty : String → Bool
nonempty String.[] = false
nonempty (String.◌∷◌ c s) = true

-- `s in xs`
abbrev pub elem : String → List String → Bool
elem s [] = false
elem s (x ∷ xs) = str_eq x s || elem s xs

-- `str.isspace` of one character, which `str.strip` removes.
abbrev is_space_code : ℕ → Bool
is_space_code c =
    (leb 9 c && leb c 13)
    || (leb 28 c && leb c 32)
    || c == 0x85
    || c == 0xa0
    || c == 0x1680
    || (leb 0x2000 c && leb c 0x200a)
    || c == 0x2028
    || c == 0x2029
    || c == 0x202f
    || c == 0x205f
    || c == 0x3000

pub is_space : Char → Bool
is_space c = is_space_code (code c)

-- `s.lstrip()`
pub lstrip : String → String
lstrip String.[] = String.[]
lstrip (String.◌∷◌ c s) = let rest = lstrip s in if is_space c then rest else String.◌∷◌ c s

-- A character in front of text that is stripped on the right.
abbrev push_stripped : (Char → Bool) → Char → String → String
push_stripped p c String.[] = if p c then String.[] else String.◌∷◌ c String.[]
push_stripped p c (String.◌∷◌ d s) = String.◌∷◌ c (String.◌∷◌ d s)

-- `s.rstrip()`, of the characters that pass the test
unfoldable pub rstrip_by : (Char → Bool) → String → String
rstrip_by p String.[] = String.[]
rstrip_by p (String.◌∷◌ c s) = push_stripped p c (rstrip_by p s)

-- `s.strip()`
unfoldable pub strip : String → String
unfolding lstrip rstrip_by is_space
strip s = rstrip_by is_space (lstrip s)

-- `s[:n]`, by characters
unfoldable pub take_text : ℕ → String → String
take_text zero s = String.[]
take_text (suc n) String.[] = String.[]
take_text (suc n) (String.◌∷◌ c s) = String.◌∷◌ c (take_text n s)

-- `s[n:]`
unfoldable pub drop_text : ℕ → String → String
drop_text zero s = s
drop_text (suc n) String.[] = String.[]
drop_text (suc n) (String.◌∷◌ c s) = drop_text n s

-- `len(s)`
abbrev pub text_length : String → ℕ
text_length String.[] = 0
text_length (String.◌∷◌ c s) = suc (text_length s)

-- `s.startswith(p)`
unfoldable pub has_prefix : String → String → Bool
has_prefix s String.[] = true
has_prefix String.[] (String.◌∷◌ d p) = false
has_prefix (String.◌∷◌ c s) (String.◌∷◌ d p) = code c == code d && has_prefix s p

-- `p in s`
unfoldable pub contains_text : String → String → Bool
unfolding has_prefix
contains_text p String.[] = has_prefix String.[] p
contains_text p (String.◌∷◌ c s) = has_prefix (String.◌∷◌ c s) p || contains_text p s

-- `s.split(d)` at a one-character separator: the text before the first one, and the parts behind.
abbrev pub Parts : Type 0
Parts = String × List String

abbrev extend : Char → Parts → Parts
extend c (first, rest) = (String.◌∷◌ c first, rest)

split_at : ℕ → String → Parts
split_at d String.[] = (String.[], [])
split_at d (String.◌∷◌ c s) =
    let (first, rest) = split_at d s in
    if code c == d then (String.[], first ∷ rest) else (String.◌∷◌ c first, rest)

unfoldable pub split : ℕ → String → List String
unfolding split_at
split d s = let (first, rest) = split_at d s in first ∷ rest

-- The text before the first separator, and the text behind it, if there is one: `s.split(d, 1)`.
unfoldable pub split_once : ℕ → String → String × Option String
split_once d String.[] = (String.[], none)
split_once d (String.◌∷◌ c s) =
    let (first, rest) = split_once d s in
    if code c == d then (String.[], some s) else (String.◌∷◌ c first, rest)

-- The stripped, non-empty parts: `[m.strip() for m in raw.split(",") if m.strip()]`.
unfoldable pub strip_all : List String → List String
strip_all [] = []
strip_all (x ∷ xs) = let rest = strip_all xs in if nonempty (strip x) then strip x ∷ rest else rest

-- `sep.join(parts)`
unfoldable pub join : String → List String → String
join sep [] = ""
join sep (x ∷ []) = x
join sep (x ∷ y ∷ xs) = String.◌++◌ x (String.◌++◌ sep (join sep (y ∷ xs)))

pub elem-append : (k : String) (xs ys : List String) → elem k (xs ++ ys) ≡ (elem k xs || elem k ys)
elem-append k [] ys = refl
elem-append k (x ∷ xs) ys = ground (arith, elem-append k xs ys)

pub elem-get_elem? :
    (xs : List String) (i : ℕ) {x : String} → get_elem? xs i ≡ some x → elem x xs ≡ true
elem-get_elem? [] i e = cc
elem-get_elem? (y ∷ ys) zero {x} e = ground (arith, eq_iff y x)
elem-get_elem? (y ∷ ys) (suc i) {x} e = ground (arith, elem-get_elem? ys i e)

pub eq_of_test : (s t : String) → str_eq s t ≡ true → s ≡ t
eq_of_test s t h = (eq_iff s t).0 h

-- Two texts that the test tells apart differ.
pub ne_of_str_eq : {s t : String} → str_eq s t ≡ false → s ≢ t
ne_of_str_eq {s} {t} h e = ground (arith, eq_iff s t)

pub has_prefix_refl : (s : String) → has_prefix s s ≡ true
unfolding has_prefix
has_prefix_refl String.[] = refl
has_prefix_refl (String.◌∷◌ c s) = ground (arith, has_prefix_refl s)

-- How often a text stands in a list.
abbrev pub count : String → List String → ℕ
count k [] = 0
count k (x ∷ xs) = (if str_eq x k then 1 else 0) + count k xs

pub count-append : (k : String) (xs ys : List String) → count k (xs ++ ys) ≡ count k xs + count k ys
count-append k [] ys = omega arith
count-append k (x ∷ xs) ys = ground (arith, count-append k xs ys)

pub count-elem : (k : String) (xs : List String) → elem k xs ≡ false → count k xs ≡ 0
count-elem k [] h = refl
count-elem k (x ∷ xs) h = ground (arith, count-elem k xs)

pub count-snoc :
    (k key : String) (xs : List String)
    → count k (snoc xs key) ≡ count k xs + (if str_eq key k then 1 else 0)
count-snoc k key xs = omega (arith, count-append k xs (key ∷ []))

pub text_empty : (s : String) → nonempty s ≡ false → s ≡ ""
text_empty String.[] h = refl
text_empty (String.◌∷◌ c s) h = cc
