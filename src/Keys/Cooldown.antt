-- ===== src/Keys/Cooldown.antt =====
-- app/config.py: `auto_reset_limited_keys`, the return of limited keys after their cooldown.
pub mod Laws
use custorouter.Common.{
  ℕ, ◌+◌, ◌*◌, Bool, true, false, ◌&&◌, Option, none, some, String, List, [], ◌∷◌, leb,
  if◌then◌else◌, snoc, Dict, lookup, insert, erase, take_text,
}
use custorouter.Keys.State.{State, Env, Status, limited, standby, send, set_status}
use custorouter.Keys.Qwen.{reset_qc_model_failures}
use custorouter.Keys.Custom.{microseconds}
use custorouter.Keys.Add.{◌+text+◌}

abbrev pub is_limited : Option Status → Bool
is_limited (some limited) = true
is_limited _ = false

-- `now - limited_at >= cooldown_secs`
abbrev pub is_over : Env → ℕ → ℕ → Bool
is_over env now limited_at = leb (limited_at + microseconds (env.limit_cooldown_minutes * 60)) now

pub reset_limited : String → State → State
reset_limited key s =
    let written =
      send (set_status standby key)
        (record s { key_statuses = insert key standby s.key_statuses }) in
    reset_qc_model_failures key (record written { key_limited_at = erase key s.key_limited_at })

-- The loop over a copy of the dict's items, with the masked keys that were reset.
pub reset_from : Env → ℕ → Dict ℕ → List String → State → List String × State
unfolding reset_limited
reset_from env now [] done s = (done, s)
reset_from env now ((key, limited_at) ∷ d) done s =
    let due = is_over env now limited_at && is_limited (lookup key s.key_statuses) in
    reset_from env now d (if due then snoc done (take_text 15 key +text+ "...") else done)
      (if due then reset_limited key s else s)

pub auto_reset_limited_keys : Env → ℕ → State → List String × State
unfolding reset_from
auto_reset_limited_keys env now s =
    if leb env.limit_cooldown_minutes 0 then ([], s) else reset_from env now s.key_limited_at [] s
