-- ===== src/Keys/Catalog.antt =====
-- app/config.py: model names, their providers, and the catalogs of the providers.
pub mod Laws
use Prim.Native.String
use Prim.Native.Char.{code}
use custorouter.Common.{
  ℕ, Bool, true, false, not, ◌&&◌, Option, none, some, String, List, [], ◌∷◌, ◌==◌, if◌then◌else◌,
  is_empty, length, elem, or_else, Dict, lookup, insert, keep, str_eq, nonempty, strip, strip_all,
  split, split_once, drop_text, text_length, has_prefix, join, map, snoc,
}
use custorouter.Keys.State.{State, ProviderInfo, Reply, send, set_models}
use custorouter.Keys.Custom.{get_current_custom_key}
use custorouter.Keys.Add.{◌+text+◌}

-- `[m.strip() for m in RAW.split(",") if m.strip()]`
pub parse_models : String → List String
parse_models raw = strip_all (split b',' raw)

-- DAHL_MODELS_SHORT: `m.split("/", 1)[-1] if "/" in m else m`
pub short_name : String → String
short_name m = or_else (split_once b'/' m).1 m

-- DAHL_MODEL_MAP: `dict(zip(DAHL_MODELS_SHORT, DAHL_MODELS))`
pub model_map : Dict String → List String → Dict String
unfolding short_name
model_map d [] = d
model_map d (m ∷ ms) = model_map (insert (short_name m) m d) ms

pub resolve_dahl_model : List String → String → String
unfolding model_map
resolve_dahl_model models short = or_else (lookup short (model_map [] models)) short

-- _MODEL_PREFIX_TO_PROVIDER.get(prefix, prefix)
abbrev pub renamed : String → String
renamed prefix =
    if str_eq prefix "dh"
    then "dahl"
    else if str_eq prefix "mk"
    then "marketku"
    else if str_eq prefix "at"
    then "atomesus"
    else if str_eq prefix "wz"
    then "weize"
    else prefix

abbrev pub from_parts : String × Option String → String
from_parts (prefix, none) = "kc"
from_parts (prefix, some rest) = renamed prefix

-- A model of no text has no slash either.
pub provider_from_model : String → String
provider_from_model model = from_parts (split_once b'/' model)

-- list(dict.fromkeys(xs))
pub unique_from : List String → List String → List String
unique_from seen [] = seen
unique_from seen (x ∷ xs) = unique_from (if elem x seen then seen else snoc seen x) xs

pub unique : List String → List String
unfolding unique_from
unique xs = unique_from [] xs

pub store_models : String → ProviderInfo → List String → State → State
store_models prefix info models s = send (set_models prefix (join "," models)) (record s {
  custom_providers = insert prefix (record info { models = models }) s.custom_providers;
})

-- The message counts the models; the digits of a number are left to the parameter.
pub set_custom_provider_models : (ℕ → String) → String → List String → State → Reply × State
unfolding unique store_models
set_custom_provider_models digits prefix models s = elim (lookup prefix s.custom_providers) [
  | none ↦ ((false, "Unknown provider"), s)
  | some info ↦
      let cleaned = unique (strip_all models) in
      (
        (true, "Set " +text+ digits (length cleaned) +text+ " models"),
        store_models prefix info cleaned s,
      )
]

-- What the request for a provider's model list came to: an exception, with its text, or a status and
-- the ids in the body.
pub data Fetched : Type 0 where
  failed : String → Fetched
  answered : ℕ → List String → Fetched

-- `m[len(own_prefix):] if m.startswith(own_prefix) else m`
pub strip_own : String → String → String
strip_own own m = if has_prefix m own then drop_text (text_length own) m else m

pub refresh_custom_provider_models :
    (ℕ → String) → (ProviderInfo → String → Fetched) → String → State → Reply × State
unfolding unique strip_own store_models
refresh_custom_provider_models digits fetch prefix s = elim (lookup prefix s.custom_providers) [
  | none ↦ ((false, "Unknown provider"), s)
  | some info ↦
      let key = get_current_custom_key prefix s in
      if not (nonempty key)
      then ((false, "No API key configured for this provider yet"), s)
      else elim (fetch info key) [
        | failed message ↦ ((false, message), s)
        | answered status ids ↦
            let raw = keep nonempty ids in
            let models = unique (map (strip_own (prefix +text+ "/")) raw) in
            if not (status == 200)
            then ((false, "HTTP " +text+ digits status +text+ " fetching model list"), s)
            else if is_empty raw
            then ((false, "Provider returned no models"), s)
            else (
              (true, "Fetched " +text+ digits (length models) +text+ " models"),
              store_models prefix info models s,
            )
      ]
]

-- One of the three headers of the request that are passed on, if it has a value.
abbrev pass_on : Dict String → String → Dict String → Dict String
pass_on request name headers = elim (lookup name request) [
  | none ↦ headers
  | some value ↦ if nonempty value then insert name value headers else headers
]

-- The header with the provider's own key.
pub signed_headers : ProviderInfo → String → Dict String
signed_headers info key =
    let json = ("Content-Type", "application/json") ∷ [] in
    if str_eq info.auth_header "x-api-key"
    then insert "x-api-key" key json
    else insert "Authorization" ("Bearer " +text+ key) json

abbrev versioned : ProviderInfo → Dict String → Dict String
versioned info headers =
    if nonempty info.anthropic_version
    then insert "anthropic-version" info.anthropic_version headers
    else headers

abbrev pass_headers : Dict String → Dict String → Dict String
pass_headers request headers =
    pass_on request "anthropic-workspace-id"
      (pass_on request "anthropic-beta" (pass_on request "anthropic-version" headers))

-- The request's headers are a dict by lower-case name; `None` is a dict with no entry.
pub custom_provider_headers : ProviderInfo → String → Dict String → Dict String
unfolding signed_headers
custom_provider_headers info key request =
    let signed = signed_headers info key in
    if str_eq info.api_format "anthropic"
    then pass_headers request (versioned info signed)
    else signed
