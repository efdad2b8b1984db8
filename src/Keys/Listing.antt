-- ===== src/Keys/Listing.antt =====
-- app/config.py: `get_masked_keys`, the listing of the keys for the dashboard.
use custorouter.Common.{
  ℕ, suc, Bool, true, false, none, some, String, List, [], ◌∷◌, ◌++◌, if◌then◌else◌, elem, or_else,
  Dict, lookup, take_text, length,
}
use custorouter.Keys.State.{Builtin, bm, nry, dahl, qc, marketku, Status, standby, State, prefix_of}
use custorouter.Keys.Add.{masked, builtin_keys}

-- One entry; the entry of a built-in pool has no `is_custom`, which reads as false.
pub record MaskedKey : Type 0 where
  pub index : ℕ
  pub masked : String
  pub prefix : String
  pub status : Status
  pub provider : String
  pub provider_name : String
  pub is_bm : Bool
  pub is_nr : Bool
  pub is_dahl : Bool
  pub is_qc : Bool
  pub is_marketku : Bool
  pub is_custom : Bool

-- BUILTIN_PROVIDER_NAMES
abbrev pub name_of : Builtin → String
name_of bm = "Bluesminds"
name_of nry = "byNara"
name_of dahl = "Dahl"
name_of qc = "Qwen Cloud"
name_of marketku = "MarketKu"

-- The first pool that lists the key; the last one is not tested.
abbrev pub owner_of : String → State → Builtin
owner_of key s =
    if elem key s.bm_pool.keys
    then bm
    else if elem key s.nry_pool.keys
    then nry
    else if elem key s.dahl_pool.keys
    then dahl
    else if elem key s.qc_pool.keys
    then qc
    else marketku

abbrev pub status_of : String → State → Status
status_of key s = or_else (lookup key s.key_statuses) standby

unfoldable pub builtin_entry : ℕ → String → State → MaskedKey
builtin_entry i key s = record {
  index = i;
  masked = masked key;
  prefix = take_text 15 key;
  status = status_of key s;
  provider = prefix_of (owner_of key s);
  provider_name = name_of (owner_of key s);
  is_bm = elem key s.bm_pool.keys;
  is_nr = elem key s.nry_pool.keys;
  is_dahl = elem key s.dahl_pool.keys;
  is_qc = elem key s.qc_pool.keys;
  is_marketku = elem key s.marketku_pool.keys;
  is_custom = false;
}

abbrev pub custom_name : String → State → String
custom_name p s = elim (lookup p s.custom_providers) [ none ↦ p | some info ↦ info.name ]

unfoldable pub custom_entry : ℕ → String → String → State → MaskedKey
custom_entry i p key s = record {
  index = i;
  masked = masked key;
  prefix = take_text 15 key;
  status = status_of key s;
  provider = p;
  provider_name = custom_name p s;
  is_bm = false;
  is_nr = false;
  is_dahl = false;
  is_qc = false;
  is_marketku = false;
  is_custom = true;
}

-- The two loops, with the running index.
unfoldable pub list_builtin : ℕ → List String → State → List MaskedKey
unfolding builtin_entry
list_builtin i [] s = []
list_builtin i (k ∷ ks) s = builtin_entry i k s ∷ list_builtin (suc i) ks s

-- The keys of the custom providers, each with its provider.
abbrev pub with_provider : String → List String → List (String × String)
with_provider p [] = []
with_provider p (k ∷ ks) = (p, k) ∷ with_provider p ks

abbrev pub owned_keys : Dict (List String) → List (String × String)
owned_keys [] = []
owned_keys ((p, ks) ∷ d) = with_provider p ks ++ owned_keys d

unfoldable pub list_custom : ℕ → List (String × String) → State → List MaskedKey
unfolding custom_entry
list_custom i [] s = []
list_custom i ((p, k) ∷ ks) s = custom_entry i p k s ∷ list_custom (suc i) ks s

unfoldable pub get_masked_keys : State → List MaskedKey
unfolding list_builtin list_custom
get_masked_keys s =
    let first = list_builtin 0 (builtin_keys s) s in
    first ++ list_custom (length (builtin_keys s)) (owned_keys s.custom_provider_keys) s
