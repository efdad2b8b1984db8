-- ===== src/Keys/Tests/Providers.antt =====
-- Tests and examples of the providers and their catalogs of app/config.py.
use custorouter.Common.{
  ◌≡◌, refl, ◌⊎◌, arith, or_else, lookup, ◌∷◌, none, some, String, [], true, false, strip,
  rstrip_by,
}
use custorouter.Keys.State.{nry, raised, index_error}
use custorouter.Keys.Rotation.{get_current_key}
use custorouter.Keys.Add.{builtin_of, is_listed, add_api_key, ◌+text+◌}
use custorouter.Keys.Providers.{
  Unicode, lower, is_slash, is_prefix_text, add_custom_provider, remove_provider,
}
use custorouter.Keys.Providers.Judged.{IsJudged}
use custorouter.Keys.Providers.Laws.{IsStored, add_custom_provider_lem}
use custorouter.Keys.Providers.Removal.{remove_provider_stale}
use custorouter.Keys.Catalog.{provider_from_model}
use custorouter.Keys.Catalog.Laws.{provider_from_model-prefix}
use custorouter.Keys.Tests.{env, busy}

-- A text outside ASCII that `lower` leaves as it is, and no digits outside ASCII.
abbrev plain : Unicode
plain = record { lower_other = λ c. String.◌∷◌ c String.[]; is_other_digit = λ c. false }

add_custom_provider_example :
    let p = lower plain (strip " Acme2 ") in
    let base = rstrip_by is_slash (strip "https://two.test/") in
    ((message : String) × IsJudged plain p
        (strip "Two")
        base
        "openai"
        "bearer"
        ""
        busy
        (some message)
      × (add_custom_provider plain " Acme2 " "Two" "https://two.test/" "openai" "bearer" "" busy
          ≡ ((false, message), busy)))
    ⊎ (IsJudged plain p (strip "Two") base "openai" "bearer" "" busy none
        × ((add_custom_provider plain " Acme2 " "Two" "https://two.test/" "openai" "bearer" ""
              busy).0
            ≡ (true, "Provider added"))
        × IsStored p
            (record {
              name = strip "Two";
              base_url = base;
              api_format = "openai";
              auth_header = "bearer";
              anthropic_version = "";
              models = [];
            })
            busy
            (add_custom_provider plain " Acme2 " "Two" "https://two.test/" "openai" "bearer" ""
              busy).1)
add_custom_provider_example =
    add_custom_provider_lem plain " Acme2 " "Two" "https://two.test/" "openai" "bearer" "" busy

remove_provider_stale_example :
    ((add_api_key "fresh" "nry" (remove_provider "nry" busy).1).0
      ≡ (true, "Key added successfully"))
    × (get_current_key env nry (add_api_key "fresh" "nry" (remove_provider "nry" busy).1).1
        ≡ raised index_error)
unfolding builtin_of strip is_listed remove_provider
remove_provider_stale_example =
    remove_provider_stale env "nry" "fresh" nry busy refl (omega arith) refl refl

provider_from_model-prefix_example :
    provider_from_model ("mk" +text+ ("/" +text+ "m-1"))
    ≡ or_else
        (lookup "mk"
          (("dh", "dahl") ∷ ("mk", "marketku") ∷ ("at", "atomesus") ∷ ("wz", "weize") ∷ []))
        "mk"
unfolding is_prefix_text
provider_from_model-prefix_example = provider_from_model-prefix "mk" "m-1" refl
