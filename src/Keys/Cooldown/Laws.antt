-- ===== src/Keys/Cooldown/Laws.antt =====
-- Which keys `auto_reset_limited_keys` of app/config.py brings back.
use custorouter.Common.{
  ltb, ℕ, ◌≡◌, refl, Bool, true, false, ◌&&◌, ◌||◌, Option, some, String, List, [], ◌∷◌, arith,
  if◌then◌else◌, Dict, lookup, lookup-insert, str_eq, eq_iff, ap, ◌∙◌,
}
use custorouter.Keys.State.{State, Env, Status, standby}
use custorouter.Keys.Qwen.{reset_qc_model_failures}
use custorouter.Keys.Cooldown.{
  is_limited, is_over, reset_limited, reset_from, auto_reset_limited_keys,
}

-- Some entry of the key is older than the cooldown.
abbrev pub has_expired : Env → ℕ → String → Dict ℕ → Bool
has_expired env now k [] = false
has_expired env now k ((key, at) ∷ d) =
    (str_eq key k && is_over env now at) || has_expired env now k d

lookup-reset_limited :
    (key k : String) (s : State)
    → lookup k (reset_limited key s).key_statuses
      ≡ (if str_eq key k then some standby else lookup k s.key_statuses)
unfolding reset_limited reset_qc_model_failures
lookup-reset_limited key k s = lookup-insert key k standby s.key_statuses

-- One round of the loop, on the status of `k`.
lookup-round :
    (key k : String) (due : Bool) (s : State)
    → lookup k (if due then reset_limited key s else s).key_statuses
      ≡ (if due && str_eq key k then some standby else lookup k s.key_statuses)
lookup-round key k true s = lookup-reset_limited key k s
lookup-round key k false s = refl

-- A round and the rest of the loop together, on one status: `x` is that of the key in question, `y`
-- that of the round's key.
merge :
    (over later same : Bool) (x y : Option Status)
    → (same ≡ true → y ≡ x)
    → (if later && is_limited (if (over && is_limited y) && same then some standby else x)
        then some standby
        else if (over && is_limited y) && same
        then some standby
        else x)
      ≡ (if ((same && over) || later) && is_limited x then some standby else x)
merge true later true x y h = rw (h refl) (ground arith)
merge false later true x y h = refl
merge over later false x y h = ground arith

lookup-reset_from :
    (env : Env) (now : ℕ) (k : String) (d : Dict ℕ) (done : List String) (s : State)
    → lookup k (reset_from env now d done s).1.key_statuses ≡ (
        if has_expired env now k d && is_limited (lookup k s.key_statuses)
        then some standby
        else lookup k s.key_statuses)
unfolding reset_from
lookup-reset_from env now k [] done s = refl
lookup-reset_from env now k ((key, at) ∷ d) done s =
    let due = is_over env now at && is_limited (lookup key s.key_statuses) in
    let ih = lookup-reset_from env now k d _ (if due then reset_limited key s else s) in
    let round = lookup-round key k due s in
    ih
    ∙ rw round (
        merge (is_over env now at) (has_expired env now k d) (str_eq key k)
          (lookup k s.key_statuses) (lookup key s.key_statuses)
          (λ e. ap (λ j. lookup j s.key_statuses) ((eq_iff key k).0 e)))

-- With a cooldown of a minute or more, a sweep turns exactly the limited keys that have an entry older
-- than the cooldown to standby, and leaves every other status; with no cooldown it does nothing.
pub auto_reset_limited_keys_lem :
    (env : Env) (now : ℕ) (k : String) (s : State)
    → lookup k (auto_reset_limited_keys env now s).1.key_statuses ≡ (
        if ltb 0 env.limit_cooldown_minutes
          && (has_expired env now k s.key_limited_at && is_limited (lookup k s.key_statuses))
        then some standby
        else lookup k s.key_statuses)
unfolding auto_reset_limited_keys
auto_reset_limited_keys_lem env now k s =
    ground (arith, lookup-reset_from env now k s.key_limited_at [] s)
