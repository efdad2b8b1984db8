-- ===== src/Keys/Providers.antt =====
-- app/config.py: the providers, added, changed and removed, and the provider that a model names.
--
-- Unicode's case table and its decimal digits outside ASCII are parameters, and so is the answer of a
-- provider's own model list.
pub mod Judged
pub mod Laws
pub mod Removal
use Prim.Native.Char.{Char, code}
use Prim.Native.String
use custorouter.Common.{
  ℕ, zero, suc, ◌+◌, Bool, true, false, not, ◌&&◌, ◌||◌, Option, none, some, String, List, [], ◌∷◌,
  leb, ltb, ◌==◌, if◌then◌else◌, is_empty, length, elem, or_else, is_some, Dict, lookup, insert,
  erase, keep, str_eq, nonempty, strip, strip_all, rstrip_by, split_once, drop_text, text_length,
  has_prefix, join, any, map,
}
use custorouter.Keys.State.{
  Builtin, prefix_of, State, ProviderInfo, Pool, Reply, pool, set_pool, send, insert_provider,
  delete_provider, set_models, enable_provider, disable_provider, delete_provider_keys,
}
use custorouter.Keys.Custom.{keys_of, get_current_custom_key}
use custorouter.Keys.Add.{builtins, builtin_of, ◌+text+◌}

pub record Unicode : Type 0 where
  pub lower_other : Char → String
  pub is_other_digit : ℕ → Bool

-- A capital letter of ASCII becomes its small letter.
abbrev pub lower_in : Char → String → String → Char
lower_in c (String.◌∷◌ a as_) (String.◌∷◌ b bs) =
    let rest = lower_in c as_ bs in if code c == code a then b else rest
lower_in c _ _ = c

abbrev pub lower_ascii : Char → Char
lower_ascii c = lower_in c "ABCDEFGHIJKLMNOPQRSTUVWXYZ" "abcdefghijklmnopqrstuvwxyz"

-- `s.lower()`
unfoldable pub lower : Unicode → String → String
lower u String.[] = String.[]
lower u (String.◌∷◌ c s) =
    let rest = lower u s in
    if ltb (code c) 128 then String.◌∷◌ (lower_ascii c) rest else String.◌++◌ (u.lower_other c) rest

-- The characters of `[a-z0-9]` and of `[a-z0-9_-]`.
abbrev pub is_alnum : ℕ → Bool
is_alnum c = (leb b'a' c && leb c b'z') || (leb b'0' c && leb c b'9')

abbrev pub is_word : ℕ → Bool
is_word c = is_alnum c || c == b'_' || c == b'-'

abbrev pub all_chars : (ℕ → Bool) → String → Bool
all_chars p String.[] = true
all_chars p (String.◌∷◌ c s) = p (code c) && all_chars p s

-- `re.fullmatch(r"[a-z0-9][a-z0-9_-]{0,19}", prefix)`
unfoldable pub is_prefix_text : String → Bool
is_prefix_text String.[] = false
is_prefix_text (String.◌∷◌ c s) =
    is_alnum (code c) && (all_chars is_word s && leb (text_length s) 19)

-- `re.fullmatch(r"\d{4}-\d{2}-\d{2}", version)`: the shape is `d` for a digit, `-` for itself.
abbrev pub fits_shape : Unicode → String → String → Bool
fits_shape u String.[] String.[] = true
fits_shape u String.[] (String.◌∷◌ c s) = false
fits_shape u (String.◌∷◌ d shape) String.[] = false
fits_shape u (String.◌∷◌ d shape) (String.◌∷◌ c s) =
    (if code d == b'd'
      then (leb b'0' (code c) && leb (code c) b'9') || u.is_other_digit (code c)
      else code c == code d)
    && fits_shape u shape s

abbrev pub is_slash : Char → Bool
is_slash c = code c == b'/'

-- `prefix in BUILTIN_PROVIDER_PREFIXES or prefix in CUSTOM_PROVIDERS`
unfoldable pub in_use : String → State → Bool
in_use prefix s = is_some (builtin_of prefix) || is_some (lookup prefix s.custom_providers)

-- The guards of `add_custom_provider`, in their order: the message of the first that fails.
unfoldable pub refusal :
    Unicode → String → String → String → String → String → String → State → Option String
unfolding is_prefix_text in_use
refusal u prefix name base_url api_format auth_header version s =
    if not (nonempty prefix) || not (nonempty name) || not (nonempty base_url)
    then some "Prefix, name, and base URL are all required"
    else if not (is_prefix_text prefix)
    then some "Prefix must be lowercase letters/numbers/hyphens, 1-20 chars"
    else if in_use prefix s
    then some ("Prefix '" +text+ prefix +text+ "' is already in use")
    else if not (str_eq api_format "openai" || str_eq api_format "anthropic")
    then some "api_format must be 'openai' or 'anthropic'"
    else if not (str_eq auth_header "bearer" || str_eq auth_header "x-api-key")
    then some "auth_header must be 'bearer' or 'x-api-key'"
    else if nonempty version && not (fits_shape u "dddd-dd-dd" version)
    then some "anthropic_version must be YYYY-MM-DD or empty"
    else none

abbrev pub discard : String → List String → List String
discard p xs = keep (λ q. not (str_eq q p)) xs

pub store_provider : String → ProviderInfo → State → State
store_provider prefix info s =
    send (enable_provider prefix) (record (send (insert_provider prefix info) s) {
      custom_providers = insert prefix info s.custom_providers;
      custom_provider_keys = insert prefix [] s.custom_provider_keys;
      custom_key_index = insert prefix 0 s.custom_key_index;
      disabled_providers = discard prefix s.disabled_providers;
    })

pub add_custom_provider :
    Unicode → String → String → String → String → String → String → State → Reply × State
unfolding refusal store_provider
add_custom_provider u prefix_text name_text url_text api_format auth_header version s =
    let prefix = lower u (strip prefix_text) in
    let name = strip name_text in
    let base_url = rstrip_by is_slash (strip url_text) in
    elim (refusal u prefix name base_url api_format auth_header version s) [
      | some message ↦ ((false, message), s)
      | none ↦ (
        (true, "Provider added"),
        store_provider prefix
            (record {
              name = name;
              base_url = base_url;
              api_format = api_format;
              auth_header = auth_header;
              anthropic_version = version;
              models = [];
            })
            s,
      )
    ]

-- for k in list(keys): key_statuses.pop(k, None)
pub forget_statuses : List String → State → State
forget_statuses [] s = s
forget_statuses (k ∷ ks) s = forget_statuses ks (record s { key_statuses = erase k s.key_statuses })

-- A set of texts: adding one that is there changes nothing.
abbrev pub add_to_set : String → List String → List String
add_to_set p xs = if elem p xs then xs else p ∷ xs

-- The two statements, and the entry in DISABLED_PROVIDERS.
abbrev pub announce_disabled : String → State → State
announce_disabled prefix s =
    record (send (disable_provider prefix) (send (delete_provider_keys prefix) s)) {
      disabled_providers = add_to_set prefix s.disabled_providers;
    }

-- The branch for a built-in provider. `keys.clear()` leaves the pool's index where it was.
pub disable_builtin : Builtin → State → State
unfolding forget_statuses
disable_builtin b s =
    announce_disabled (prefix_of b)
      (set_pool b (record (pool b s) { keys = [] }) (forget_statuses (pool b s).keys s))

pub drop_provider : String → State → State
unfolding forget_statuses
drop_provider prefix s =
    let forgotten = forget_statuses (keys_of prefix s) s in
    record (send (delete_provider prefix) (send (delete_provider_keys prefix) forgotten)) {
      custom_providers = erase prefix s.custom_providers;
      custom_provider_keys = erase prefix s.custom_provider_keys;
      custom_key_index = erase prefix s.custom_key_index;
    }

unfoldable pub remove_provider : String → State → Reply × State
unfolding disable_builtin drop_provider
remove_provider prefix s = elim (builtin_of prefix) [
  | some b ↦ ((true, "Built-in provider disabled and its keys removed"), disable_builtin b s)
  | none ↦
      if is_some (lookup prefix s.custom_providers)
      then ((true, "Provider removed"), drop_provider prefix s)
      else ((false, "Unknown provider"), s)
]
