-- ===== src/Keys/Providers/Judged.antt =====
-- The guards of `add_custom_provider` of app/config.py, in their order.
use Prim.Native.Char.{code}
use custorouter.Common.{
  ℕ, Bool, Option, ◌||◌, leb, ◌==◌, is_some, nonempty, text_length, Bool-cases, if◌then◌else◌,
  str_eq, ◌&&◌, not, ◌≡◌, refl, inl, inr, true, false, none, some, String, [], ◌∷◌, arith, elem,
  lookup, eq_iff,
}
use custorouter.Keys.State.{State}
use custorouter.Keys.Add.{builtin_of, ◌+text+◌}
use custorouter.Keys.Providers.{
  is_word, all_chars, is_prefix_text, fits_shape, in_use, Unicode, refusal,
}

-- `[a-z0-9]` and `[a-z0-9_-]` by their codes.
abbrev is_small : ℕ → Bool
is_small c = (leb 97 c && leb c 122) || (leb 48 c && leb c 57)

abbrev is_mark : ℕ → Bool
is_mark c = is_small c || c == 95 || c == 45

-- A prefix: 1 to 20 letters, digits, underscores and hyphens, of which the first is no mark.
abbrev is_plain : String → Bool
is_plain String.[] = false
is_plain (String.◌∷◌ c s) =
    is_small (code c) && all_chars is_mark s && leb (text_length (String.◌∷◌ c s)) 20

abbrev is_taken : String → State → Bool
is_taken p s =
    elem p ("bm" ∷ "nry" ∷ "dahl" ∷ "qc" ∷ "marketku" ∷ []) || is_some (lookup p s.custom_providers)

-- The answer of the first guard that fails, by the guards that hold in front of it; `none` if none does.
pub data IsJudged (u : Unicode) (p name base api_format auth_header version : String) (s : State)
    : Option String → Type 0 where
  blank :
      nonempty p && nonempty name && nonempty base ≡ false
      → IsJudged u p name base api_format auth_header version s
          (some "Prefix, name, and base URL are all required")
  shapeless :
      nonempty p && nonempty name && nonempty base ≡ true
      → is_plain p ≡ false
      → IsJudged u p name base api_format auth_header version s
          (some "Prefix must be lowercase letters/numbers/hyphens, 1-20 chars")
  taken :
      nonempty p && nonempty name && nonempty base && is_plain p ≡ true
      → is_taken p s ≡ true
      → IsJudged u p name base api_format auth_header version s
          (some ("Prefix '" +text+ p +text+ "' is already in use"))
  formatless :
      nonempty p && nonempty name && nonempty base && is_plain p && not (is_taken p s) ≡ true
      → elem api_format ("openai" ∷ "anthropic" ∷ []) ≡ false
      → IsJudged u p name base api_format auth_header version s
          (some "api_format must be 'openai' or 'anthropic'")
  headerless :
      nonempty p
          && nonempty name
          && nonempty base
          && is_plain p
          && not (is_taken p s)
          && elem api_format ("openai" ∷ "anthropic" ∷ [])
        ≡ true
      → elem auth_header ("bearer" ∷ "x-api-key" ∷ []) ≡ false
      → IsJudged u p name base api_format auth_header version s
          (some "auth_header must be 'bearer' or 'x-api-key'")
  versionless :
      nonempty p
          && nonempty name
          && nonempty base
          && is_plain p
          && not (is_taken p s)
          && elem api_format ("openai" ∷ "anthropic" ∷ [])
          && elem auth_header ("bearer" ∷ "x-api-key" ∷ [])
        ≡ true
      → not (nonempty version) || fits_shape u "dddd-dd-dd" version ≡ false
      → IsJudged u p name base api_format auth_header version s
          (some "anthropic_version must be YYYY-MM-DD or empty")
  accepted :
      nonempty p
          && nonempty name
          && nonempty base
          && is_plain p
          && not (is_taken p s)
          && elem api_format ("openai" ∷ "anthropic" ∷ [])
          && elem auth_header ("bearer" ∷ "x-api-key" ∷ [])
          && (not (nonempty version) || fits_shape u "dddd-dd-dd" version)
        ≡ true
      → IsJudged u p name base api_format auth_header version s none

all_chars-is_mark : (s : String) → all_chars is_word s ≡ all_chars is_mark s
all_chars-is_mark String.[] = refl
all_chars-is_mark (String.◌∷◌ c s) = ground (arith, all_chars-is_mark s)

is_prefix_text-is_plain : (p : String) → is_prefix_text p ≡ is_plain p
unfolding is_prefix_text
is_prefix_text-is_plain String.[] = refl
is_prefix_text-is_plain (String.◌∷◌ c s) = ground (arith, all_chars-is_mark s)

in_use-is_taken : (p : String) (s : State) → in_use p s ≡ is_taken p s
unfolding in_use builtin_of
in_use-is_taken p s = ground (
  arith,
  eq_iff p "bm",
  eq_iff p "nry",
  eq_iff p "dahl",
  eq_iff p "qc",
  eq_iff p "marketku",
  eq_iff "bm" p,
  eq_iff "nry" p,
  eq_iff "dahl" p,
  eq_iff "qc" p,
  eq_iff "marketku" p,
)

elem-two : (x a b : String) → elem x (a ∷ b ∷ []) ≡ (str_eq x a || str_eq x b)
elem-two x a b = ground (arith, eq_iff a x, eq_iff x a, eq_iff b x, eq_iff x b)

not-all : (p q r : Bool) → (not p || not q || not r) ≡ not (p && q && r)
not-all p q r = ground arith

not-fits : (p q : Bool) → (p && not q) ≡ not (not p || q)
not-fits p q = ground arith

refusal_eq :
    (u : Unicode) (p name base api_format auth_header version : String) (s : State)
    → refusal u p name base api_format auth_header version s ≡ (
        if not (nonempty p && nonempty name && nonempty base)
        then some "Prefix, name, and base URL are all required"
        else if not (is_plain p)
        then some "Prefix must be lowercase letters/numbers/hyphens, 1-20 chars"
        else if is_taken p s
        then some ("Prefix '" +text+ p +text+ "' is already in use")
        else if not (elem api_format ("openai" ∷ "anthropic" ∷ []))
        then some "api_format must be 'openai' or 'anthropic'"
        else if not (elem auth_header ("bearer" ∷ "x-api-key" ∷ []))
        then some "auth_header must be 'bearer' or 'x-api-key'"
        else if not (not (nonempty version) || fits_shape u "dddd-dd-dd" version)
        then some "anthropic_version must be YYYY-MM-DD or empty"
        else none)
unfolding refusal
refusal_eq u p name base api_format auth_header version s =
    rw
      (
        is_prefix_text-is_plain p,
        in_use-is_taken p s,
        ← elem-two api_format "openai" "anthropic",
        ← elem-two auth_header "bearer" "x-api-key",
        not-all (nonempty p) (nonempty name) (nonempty base),
        not-fits (nonempty version) (fits_shape u "dddd-dd-dd" version),
      )
      refl

pub refusal-IsJudged :
    (u : Unicode) (p name base api_format auth_header version : String) (s : State)
    → IsJudged u p name base api_format auth_header version s
        (refusal u p name base api_format auth_header version s)
refusal-IsJudged u p name base api_format auth_header version s =
    rw (refusal_eq u p name base api_format auth_header version s)
      (elim (Bool-cases (nonempty p && nonempty name && nonempty base)) [
        | inr fails ↦ rw fails (blank fails)
        | inl filled ↦ rw filled (elim (Bool-cases (is_plain p)) [
          | inr fails ↦ rw fails (shapeless filled fails)
          | inl shaped ↦ rw shaped (elim (Bool-cases (is_taken p s)) [
            | inl used ↦ rw used (taken (ground arith) used)
            | inr free ↦ rw free (judged_options filled shaped free)
          ])
        ])
      ])
  where
    judged_options :
        nonempty p && nonempty name && nonempty base ≡ true
        → is_plain p ≡ true
        → is_taken p s ≡ false
        → IsJudged u p name base api_format auth_header version s (
            if not (elem api_format ("openai" ∷ "anthropic" ∷ []))
            then some "api_format must be 'openai' or 'anthropic'"
            else if not (elem auth_header ("bearer" ∷ "x-api-key" ∷ []))
            then some "auth_header must be 'bearer' or 'x-api-key'"
            else if not (not (nonempty version) || fits_shape u "dddd-dd-dd" version)
            then some "anthropic_version must be YYYY-MM-DD or empty"
            else none)
    judged_options filled shaped free =
        elim (Bool-cases (elem api_format ("openai" ∷ "anthropic" ∷ []))) [
          | inr fails ↦ rw fails (formatless (ground arith) fails)
          | inl format ↦
              rw format (elim (Bool-cases (elem auth_header ("bearer" ∷ "x-api-key" ∷ []))) [
                | inr fails ↦ rw fails (headerless (ground arith) fails)
                | inl header ↦
                    rw header
                      (elim (Bool-cases
                        (not (nonempty version) || fits_shape u "dddd-dd-dd" version)) [
                          | inr fails ↦ rw fails (versionless (ground arith) fails)
                          | inl version_fits ↦ rw version_fits (accepted (ground arith))
                        ])
              ])
        ]
