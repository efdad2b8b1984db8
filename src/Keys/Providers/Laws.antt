-- ===== src/Keys/Providers/Laws.antt =====
-- What `add_custom_provider` of app/config.py accepts and what it sets up.
use custorouter.Common.{
  Bool-cases, eq_of_test, ne_of_str_eq, if◌then◌else◌, str_eq, ◌&&◌, not, ◌≡◌, refl, ◌≢◌, ◌⊎◌, inl,
  inr, true, false, none, some, String, List, [], ◌∷◌, arith, elem, lookup, lookup-insert, eq_iff,
  eq_refl, strip, rstrip_by, Option-cases,
}
use custorouter.Keys.State.{State, ProviderInfo}
use custorouter.Keys.Custom.{keys_of, index_of}
use custorouter.Keys.Providers.{
  Unicode, lower, is_slash, refusal, discard, store_provider, add_custom_provider,
}
use custorouter.Keys.Providers.Judged.{IsJudged, refusal-IsJudged}

elem-discard : (p : String) (xs : List String) → elem p (discard p xs) ≡ false
elem-discard p [] = refl
elem-discard p (x ∷ xs) = ground (arith, elem-discard p xs)

elem-discard_ne : (p q : String) (xs : List String) → p ≢ q → elem q (discard p xs) ≡ elem q xs
elem-discard_ne p q [] h = refl
elem-discard_ne p q (x ∷ xs) h = ground (arith, eq_iff x p, eq_iff x q, elem-discard_ne p q xs h)

-- The state after a provider was stored under `prefix`.
pub record IsStored (prefix : String) (info : ProviderInfo) (s t : State) : Type 0 where
  pub providers :
      (p : String)
      → lookup p t.custom_providers
        ≡ (if str_eq prefix p then some info else lookup p s.custom_providers)
  pub pools : (p : String) → keys_of p t ≡ (if str_eq prefix p then [] else keys_of p s)
  pub first_slot : index_of prefix t ≡ 0
  pub disabled :
      (p : String)
      → elem p t.disabled_providers ≡ (not (str_eq prefix p) && elem p s.disabled_providers)

elem-discard_other :
    (p q : String) (xs : List String) → elem q (discard p xs) ≡ (not (str_eq p q) && elem q xs)
elem-discard_other p q xs = elim (Bool-cases (str_eq p q)) [
  | inl same ↦ rw (same, ← eq_of_test p q same) (elem-discard p xs)
  | inr differs ↦ rw differs (elem-discard_ne p q xs (ne_of_str_eq differs))
]

store_provider-IsStored :
    (prefix : String) (info : ProviderInfo) (s : State)
    → IsStored prefix info s (store_provider prefix info s)
unfolding store_provider
store_provider-IsStored prefix info s = record {
  providers = λ p. lookup-insert prefix p info s.custom_providers;
  pools = λ p. ground (arith, lookup-insert prefix p [] s.custom_provider_keys);
  first_slot = rw (lookup-insert, eq_refl);
  disabled = λ p. elem-discard_other prefix p s.disabled_providers;
}

-- A call either is refused with the message of the first guard that fails, and changes nothing, or
-- passes every guard and stores the provider, with the fields as they were given, under its stripped,
-- lower-cased prefix with an empty pool, not disabled, and with every other provider as it was. The
-- guards: prefix, name and URL are not empty; the prefix has 1 to 20 small letters, digits, underscores
-- and hyphens and begins with a letter or a digit; it names no provider yet, built-in or custom; the
-- format and the header are among the two known ones each; the version is empty or has the shape of a
-- date.
pub add_custom_provider_lem :
    (u : Unicode) (prefix name url api_format auth_header version : String) (s : State)
    → let p = lower u (strip prefix) in
      let base = rstrip_by is_slash (strip url) in
      ((message : String) × IsJudged u p
          (strip name)
          base
          api_format
          auth_header
          version
          s
          (some message)
        × (add_custom_provider u prefix name url api_format auth_header version s
            ≡ ((false, message), s)))
      ⊎ (IsJudged u p (strip name) base api_format auth_header version s none
          × ((add_custom_provider u prefix name url api_format auth_header version s).0
              ≡ (true, "Provider added"))
          × IsStored p
              (record {
                name = strip name;
                base_url = base;
                api_format = api_format;
                auth_header = auth_header;
                anthropic_version = version;
                models = [];
              })
              s
              (add_custom_provider u prefix name url api_format auth_header version s).1)
unfolding add_custom_provider
add_custom_provider_lem u prefix name url api_format auth_header version s =
    let p = lower u (strip prefix) in
    let base = rstrip_by is_slash (strip url) in
    let judged = refusal-IsJudged u p (strip name) base api_format auth_header version s in
    let info : ProviderInfo = record {
      name = strip name;
      base_url = base;
      api_format = api_format;
      auth_header = auth_header;
      anthropic_version = version;
      models = [];
    } in
    elim (Option-cases (refusal u p (strip name) base api_format auth_header version s)) [
      | inr (message, refused) ↦
          inl (message, rw (← refused) judged, rw (refused, add_custom_provider))
      | inl passed ↦ inr (
        rw (← passed) judged,
        rw (passed, add_custom_provider),
        rw (passed, add_custom_provider) (store_provider-IsStored p info s),
      )
    ]
