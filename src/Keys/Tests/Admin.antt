-- ===== src/Keys/Tests/Admin.antt =====
-- Tests and examples of the administrator's key operations, the start and the log of app/config.py.
use mathlib.Core.Path.{subst}
use custorouter.Common.{
  map, take_text, ℕ, ◌≤◌, ◌≡◌, refl, ◌⊎◌, inl, arith, none, some, String, List, [], ◌∷◌, true,
  false, lookup, ne_of_str_eq, eq_of_test, Bool-cases, inr, str_eq, not, if◌then◌else◌, strip,
  has_prefix, nonempty,
}
use custorouter.Keys.State.{State, nry, active, standby, ok, pool}
use custorouter.Keys.Rotation.{get_current_key}
use custorouter.Keys.Add.{masked, builtin_of, is_listed, add_api_key, ◌+text+◌}
use custorouter.Keys.Add.Laws.{add_api_key_refused}
use custorouter.Keys.Add.Distinct.{occurrences, IsDistinct, add_api_key-IsDistinct}
use custorouter.Keys.Remove.{find_key, locate, remove_api_key}
use custorouter.Keys.Remove.Current.{
  IsRemoved, remove_api_key-IsRemoved, remove_api_key_inactive, remove_api_key_skips,
}
use custorouter.Keys.Active.{target_of, key_in, set_active_key}
use custorouter.Keys.Active.Laws.{IsActivated, set_active_key-IsActivated}
use custorouter.Keys.Journal.{Call}
use custorouter.Keys.Boot.{Rows, init_state_from_db}
use custorouter.Keys.Boot.Laws.{init_state_from_db-current}
use custorouter.Keys.Listing.{
  get_masked_keys, list_builtin, list_custom, builtin_entry, custom_entry,
}
use custorouter.Keys.Tests.{env, busy, five_keys}

remove_api_key-IsRemoved_example :
    ((remove_api_key env "nara-t" busy).0 ≡ ok (true, "Key removed successfully"))
    × IsRemoved nry "nara-two" busy (remove_api_key env "nara-t" busy).1
unfolding locate find_key has_prefix
remove_api_key-IsRemoved_example =
    remove_api_key-IsRemoved env "nara-t" nry "nara-two" busy refl (omega arith) (omega arith)

remove_api_key_inactive_example :
    get_current_key env nry (remove_api_key env "nara-one" busy).1 ≡ ok (some "nara-three")
unfolding locate find_key has_prefix
remove_api_key_inactive_example =
    remove_api_key_inactive env "nara-one" nry "nara-one" busy refl (omega arith)
      {current = "nara-two"} {k = "nara-three"} {j = 0} refl (ne_of_str_eq refl) refl refl

remove_api_key_skips_example :
    (get_current_key env nry (remove_api_key env "nara-one" five_keys).1 ≡ ok (some "nara-three"))
    × (lookup "nara-two" (remove_api_key env "nara-one" five_keys).1.key_statuses ≡ some active)
unfolding locate find_key has_prefix
remove_api_key_skips_example =
    remove_api_key_skips env "nara-one" nry "nara-one" five_keys refl (omega arith)
      {next = "nara-two"} {after = "nara-three"} refl refl refl refl (ne_of_str_eq refl)

-- Two byNara keys, and nothing else.
abbrev two_keys : State
two_keys = record busy {
  nry_pool = record { keys = "nara-one" ∷ "nara-two" ∷ []; index = 1 };
  qc_pool = record { keys = []; index = 0 };
  custom_provider_keys = [];
}

two_keys-IsDistinct : IsDistinct two_keys
two_keys-IsDistinct k = elim (Bool-cases (str_eq "nara-one" k)) [
  | inl same ↦ subst (λ x. occurrences x two_keys ≤ 1) (eq_of_test "nara-one" k same) (omega arith)
  | inr differs ↦ elim (Bool-cases (str_eq "nara-two" k)) [
    | inl same ↦
        subst (λ x. occurrences x two_keys ≤ 1) (eq_of_test "nara-two" k same) (omega arith)
    | inr neither ↦ rw (differs, neither) (omega arith)
  ]
]

add_api_key-IsDistinct_example : IsDistinct (add_api_key " nara-new " "nry" two_keys).1
add_api_key-IsDistinct_example =
    add_api_key-IsDistinct " nara-new " "nry" two_keys two_keys-IsDistinct

listed_key_is_refused : add_api_key " nara-one " "nry" two_keys ≡ (
  (
    false,
    if not (nonempty (strip " nara-one "))
        then "Key cannot be empty"
        else if is_listed (strip " nara-one ") two_keys
        then "Key already exists"
        else "Unknown provider: " +text+ "nry",
  ),
  two_keys,
)
unfolding add_api_key strip is_listed
listed_key_is_refused = add_api_key_refused " nara-one " "nry" two_keys refl

set_active_key-IsActivated_example :
    ((set_active_key "nara-one" (some "nry") two_keys).0 ≡ (true, "Key set as Active"))
    × IsActivated env nry "nara-one" two_keys (set_active_key "nara-one" (some "nry") two_keys).1
unfolding target_of key_in find_key has_prefix builtin_of
set_active_key-IsActivated_example =
    set_active_key-IsActivated env "nara-one" (some "nry") nry none "nara-one" two_keys
      two_keys-IsDistinct refl refl

abbrev call : Call
call = record {
  model = "nry/m";
  status_code = 200;
  key_used = "nara-one";
  rotated = false;
  latency_ms = 9;
  input_tokens = 3;
  output_tokens = 4;
  cached_tokens = 0;
  provider = none;
}

abbrev calls : List (ℕ × Call)
calls = (1, call) ∷ (2, call) ∷ []

abbrev rows : Rows
rows = record {
  providers = [];
  disabled = [];
  total_requests = 7;
  total_tokens = 8;
  total_rotations = 9;
  api_keys = record { key_value = "sk-nry-1"; status = standby; provider = "bm" } ∷ [];
  exhaustions = [];
}

init_state_from_db-current_example :
    ((pool nry (init_state_from_db env rows busy)).keys ≡ [])
    ⊎ ((k : String) × (get_current_key env nry (init_state_from_db env rows busy) ≡ ok (some k))
        × (lookup k (init_state_from_db env rows busy).key_statuses ≡ some active))
init_state_from_db-current_example = init_state_from_db-current env rows nry busy

listing_of_busy :
    map (λ k. k.masked) (get_masked_keys busy)
    ≡ "nara-one" ∷ "nara-two" ∷ "nara-three" ∷ "qc-one" ∷ "qc-two" ∷ "acme-one" ∷ "acme-two" ∷ []
unfolding get_masked_keys list_builtin list_custom builtin_entry custom_entry masked take_text
listing_of_busy = refl
