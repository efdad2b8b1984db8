-- ===== src/Keys/Catalog/Laws.antt =====
-- Model names, catalogs and request headers of the providers (app/config.py).
use text.Mathlib.TextLemmas.{nil-append, cons-append}
use custorouter.Common.{
  arith, ℕ, ◌≡◌, refl, ◌⊎◌, inl, inr, true, false, ◌||◌, none, some, String, List, [], ◌∷◌,
  if◌then◌else◌, elem, or_else, lookup, insert, lookup-insert, str_eq, eq_iff, eq_refl, split_once,
  Dict, snoc, Bool-cases, Option-cases, ap, ◌∙◌, ◌≤◌, count, count-snoc, count-elem, strip_all,
}
use custorouter.Keys.State.{ProviderInfo, State}
use custorouter.Keys.Add.{◌+text+◌}
use custorouter.Keys.Providers.{all_chars, is_word, is_prefix_text}
use custorouter.Keys.Catalog.{
  renamed, from_parts, provider_from_model, unique_from, unique, store_models,
  set_custom_provider_models, signed_headers, versioned, pass_headers, custom_provider_headers,
  pass_on,
}

split_once-word :
    (p m : String)
    → all_chars is_word p ≡ true
    → split_once b'/' (p +text+ ("/" +text+ m)) ≡ (p, some m)
unfolding split_once
split_once-word String.[] m h = rw (nil-append, cons-append, nil-append)
split_once-word (String.◌∷◌ c p) m h =
    rw cons-append (ground (arith, split_once-word p m (ground arith)))

is_word_of_prefix : (p : String) → is_prefix_text p ≡ true → all_chars is_word p ≡ true
unfolding is_prefix_text
is_word_of_prefix String.[] h = cc
is_word_of_prefix (String.◌∷◌ c s) h = ground arith

renamed-lookup :
    (p : String)
    → renamed p
      ≡ or_else
          (lookup p
            (("dh", "dahl") ∷ ("mk", "marketku") ∷ ("at", "atomesus") ∷ ("wz", "weize") ∷ []))
          p
unfolding lookup
renamed-lookup p = ground (
  arith,
  eq_iff p "dh",
  eq_iff "dh" p,
  eq_iff p "mk",
  eq_iff "mk" p,
  eq_iff p "at",
  eq_iff "at" p,
  eq_iff p "wz",
  eq_iff "wz" p,
)

-- A model under a prefix that the guard on prefixes accepts is counted under that prefix, except that
-- the four short names dh, mk, at and wz, which the guard accepts too, stand for dahl, marketku,
-- atomesus and weize.
pub provider_from_model-prefix :
    (p m : String)
    → is_prefix_text p ≡ true
    → provider_from_model (p +text+ ("/" +text+ m))
      ≡ or_else
          (lookup p
            (("dh", "dahl") ∷ ("mk", "marketku") ∷ ("at", "atomesus") ∷ ("wz", "weize") ∷ []))
          p
unfolding provider_from_model
provider_from_model-prefix p m h =
    ap from_parts (split_once-word p m (is_word_of_prefix p h)) ∙ renamed-lookup p

lookup-pass_on :
    (k name : String) (request headers : Dict String)
    → str_eq name k ≡ false
    → lookup k (pass_on request name headers) ≡ lookup k headers
lookup-pass_on k name request headers h = elim (Option-cases (lookup name request)) [
  | inl missing ↦ ground arith
  | inr (value, found) ↦ ground (arith, lookup-insert name k value headers)
]

lookup-pass_headers :
    (k : String) (request headers : Dict String)
    → str_eq "anthropic-version" k ≡ false
    → str_eq "anthropic-beta" k ≡ false
    → str_eq "anthropic-workspace-id" k ≡ false
    → lookup k (pass_headers request headers) ≡ lookup k headers
lookup-pass_headers k request headers v b w =
    lookup-pass_on k "anthropic-workspace-id" request _ w
    ∙ lookup-pass_on k "anthropic-beta" request _ b
    ∙ lookup-pass_on k "anthropic-version" request headers v

lookup-versioned :
    (k : String) (info : ProviderInfo) (headers : Dict String)
    → str_eq "anthropic-version" k ≡ false
    → lookup k (versioned info headers) ≡ lookup k headers
lookup-versioned k info headers h =
    ground (arith, lookup-insert "anthropic-version" k info.anthropic_version headers)

-- Whatever the request holds, a header that is not one of the three is the provider's.
lookup-custom_provider_headers :
    (k : String) (info : ProviderInfo) (key : String) (request : Dict String)
    → str_eq "anthropic-version" k ≡ false
    → str_eq "anthropic-beta" k ≡ false
    → str_eq "anthropic-workspace-id" k ≡ false
    → lookup k (custom_provider_headers info key request) ≡ lookup k (signed_headers info key)
unfolding custom_provider_headers
lookup-custom_provider_headers k info key request v b w =
    elim (Bool-cases (str_eq info.api_format "anthropic")) [
      | inl anthropic ↦ rw anthropic (
          lookup-pass_headers k request (versioned info (signed_headers info key)) v b w
          ∙ lookup-versioned k info (signed_headers info key) v)
      | inr openai ↦ rw openai
    ]

lookup-signed_headers :
    (info : ProviderInfo) (key : String)
    → (lookup "x-api-key" (signed_headers info key)
        ≡ (if str_eq info.auth_header "x-api-key" then some key else none))
      × (lookup "Authorization" (signed_headers info key)
          ≡ (if str_eq info.auth_header "x-api-key" then none else some ("Bearer " +text+ key)))
unfolding signed_headers lookup insert
lookup-signed_headers info key = elim (Bool-cases (str_eq info.auth_header "x-api-key")) [
  | inl own ↦ (rw own, rw own)
  | inr bearer ↦ (rw bearer, rw bearer)
]

-- The credential headers of an upstream request are the provider's own: the key goes into the header
-- that the provider is configured for, the other one is absent, whatever the client's request holds.
pub custom_provider_headers_credentials :
    (info : ProviderInfo) (key : String) (request : Dict String)
    → (lookup "x-api-key" (custom_provider_headers info key request)
        ≡ (if str_eq info.auth_header "x-api-key" then some key else none))
      × (lookup "Authorization" (custom_provider_headers info key request)
          ≡ (if str_eq info.auth_header "x-api-key" then none else some ("Bearer " +text+ key)))
custom_provider_headers_credentials info key request = (
  lookup-custom_provider_headers "x-api-key" info key request refl refl refl
      ∙ (lookup-signed_headers info key).0,
  lookup-custom_provider_headers "Authorization" info key request refl refl refl
      ∙ (lookup-signed_headers info key).1,
)

-- list(dict.fromkeys(xs)) keeps every entry, adds none, and repeats none.
elem-snoc : (x y : String) (xs : List String) → elem x (snoc xs y) ≡ (elem x xs || str_eq y x)
elem-snoc x y [] = ground arith
elem-snoc x y (z ∷ xs) = ground (arith, elem-snoc x y xs)

elem-unique_from :
    (x : String) (seen xs : List String) → elem x (unique_from seen xs) ≡ (elem x seen || elem x xs)
unfolding unique_from
elem-unique_from x seen [] = ground arith
elem-unique_from x seen (y ∷ xs) = ground (
  arith,
  eq_iff y x,
  elem-snoc x y seen,
  elem-unique_from x (if elem y seen then seen else snoc seen y) xs,
)

count-unique_from :
    (x : String) (seen xs : List String) → count x seen ≤ 1 → count x (unique_from seen xs) ≤ 1
unfolding unique_from
count-unique_from x seen [] h = h
count-unique_from x seen (y ∷ xs) h = elim (Bool-cases (elem y seen)) [
  | inl old ↦ rw old (count-unique_from x seen xs h)
  | inr new ↦ rw new (count-unique_from x (snoc seen y) xs (once new))
]
  where
    once : elem y seen ≡ false → count x (snoc seen y) ≤ 1
    once new = elim (Bool-cases (str_eq y x)) [
      | inl same ↦
          let gone : count x seen ≡ 0 = rw (← ((eq_iff y x).0 same)) (count-elem y seen new) in
          ground (arith, count-snoc x y seen)
      | inr differs ↦ ground (arith, count-snoc x y seen)
    ]

set_models_missing :
    (digits : ℕ → String) (prefix : String) (models : List String) (s : State)
    → lookup prefix s.custom_providers ≡ none
    → set_custom_provider_models digits prefix models s ≡ ((false, "Unknown provider"), s)
unfolding set_custom_provider_models
set_models_missing digits prefix models s e = ground arith

set_models_found :
    (digits : ℕ → String) (prefix : String) (models : List String) (s : State) {info : ProviderInfo}
    → lookup prefix s.custom_providers ≡ some info
    → (set_custom_provider_models digits prefix models s).1
      ≡ store_models prefix info (unique (strip_all models)) s
unfolding set_custom_provider_models
set_models_found digits prefix models s e = ground arith

-- A catalog that an administrator pins holds exactly the stripped, non-empty names of the request,
-- each of them once, and an unknown provider is refused with no change.
pub set_custom_provider_models_lem :
    (digits : ℕ → String) (prefix : String) (models : List String) (s : State)
    → ((lookup prefix s.custom_providers ≡ none)
        × (set_custom_provider_models digits prefix models s ≡ ((false, "Unknown provider"), s)))
      ⊎ ((info : ProviderInfo) × (lookup prefix
              (set_custom_provider_models digits prefix models s).1.custom_providers
            ≡ some info)
          × ((m : String) → elem m info.models ≡ elem m (strip_all models))
          × ((m : String) → count m info.models ≤ 1))
unfolding store_models unique
set_custom_provider_models_lem digits prefix models s =
    elim (Option-cases (lookup prefix s.custom_providers)) [
      | inl missing ↦ inl (missing, set_models_missing digits prefix models s missing)
      | inr (info, found) ↦ inr (
        record info { models = unique_from [] (strip_all models) },
        rw (set_models_found digits prefix models s found) (rw (lookup-insert, eq_refl)),
        λ m. elem-unique_from m [] (strip_all models),
        λ m. count-unique_from m [] (strip_all models) (omega arith),
      )
    ]
