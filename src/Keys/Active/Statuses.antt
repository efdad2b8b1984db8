-- ===== src/Keys/Active/Statuses.antt =====
-- What the demotion of a list and the promotion of a key do to the statuses (app/config.py).
use custorouter.Common.{
  ◌≡◌, refl, ◌&&◌, some, String, List, [], ◌∷◌, arith, if◌then◌else◌, elem, lookup, lookup-insert,
  str_eq, eq_iff, ◌∙◌,
}
use custorouter.Keys.State.{Builtin, bm, nry, dahl, qc, marketku, active, standby, State, pool}
use custorouter.Keys.Active.{is_active, demote_one, demote, promote}

pool-demote_one : (c : Builtin) (k : String) (s : State) → pool c (demote_one k s) ≡ pool c s
unfolding demote_one
pool-demote_one bm k s = ground arith
pool-demote_one nry k s = ground arith
pool-demote_one dahl k s = ground arith
pool-demote_one qc k s = ground arith
pool-demote_one marketku k s = ground arith

pub pool-demote : (c : Builtin) (ks : List String) (s : State) → pool c (demote ks s) ≡ pool c s
unfolding demote
pool-demote c [] s = refl
pool-demote c (k ∷ ks) s = pool-demote c ks (demote_one k s) ∙ pool-demote_one c k s

lookup-demote_one :
    (j k : String) (s : State)
    → lookup k (demote_one j s).key_statuses ≡ (
        if str_eq j k && is_active (lookup k s.key_statuses)
        then some standby
        else lookup k s.key_statuses)
unfolding demote_one
lookup-demote_one j k s = ground (arith, lookup-insert j k standby s.key_statuses, eq_iff j k)

-- Demoting a list takes the active status from its keys and touches no other status.
pub lookup-demote :
    (k : String) (ks : List String) (s : State)
    → lookup k (demote ks s).key_statuses ≡ (
        if elem k ks && is_active (lookup k s.key_statuses)
        then some standby
        else lookup k s.key_statuses)
unfolding demote
lookup-demote k [] s = refl
lookup-demote k (j ∷ ks) s =
    ground (arith, lookup-demote k ks (demote_one j s), lookup-demote_one j k s)

pub pool-promote : (c : Builtin) (k : String) (s : State) → pool c (promote k s) ≡ pool c s
unfolding promote
pool-promote bm k s = refl
pool-promote nry k s = refl
pool-promote dahl k s = refl
pool-promote qc k s = refl
pool-promote marketku k s = refl

pub lookup-promote :
    (key k : String) (s : State)
    → lookup k (promote key s).key_statuses
      ≡ (if str_eq key k then some active else lookup k s.key_statuses)
unfolding promote
lookup-promote key k s = lookup-insert key k active s.key_statuses
