-- ===== src/Keys/Add/Laws.antt =====
-- What `add_api_key` of app/config.py does with a new key.
use custorouter.Common.{
  ◌⊎◌, ◌≡◌, refl, inl, inr, true, false, not, some, String, List, [], ◌∷◌, arith, if◌then◌else◌,
  elem, keep, snoc, lookup, lookup-insert, str_eq, eq_refl, nonempty, strip, Option-cases, ◌∙◌, ap,
}
use custorouter.Keys.State.{
  unless_same, Builtin, bm, nry, dahl, qc, marketku, State, standby, pool, set_pool,
  pool-set_pool_self, pool-set_pool_ne,
}
use custorouter.Keys.Add.{is_listed, append_key, builtin_of, register_key, add_api_key, ◌+text+◌}

elem-keep : (p : String) (xs : List String) → elem p (keep (λ q. not (str_eq q p)) xs) ≡ false
elem-keep p [] = refl
elem-keep p (x ∷ xs) = ground (arith, elem-keep p xs)

-- Registering touches no pool, gives the key its status and enables the provider.
pool-register_key :
    (b : Builtin) (key provider : String) (s : State)
    → pool b (register_key key provider s) ≡ pool b s
unfolding register_key
pool-register_key bm key provider s = ground arith
pool-register_key nry key provider s = ground arith
pool-register_key dahl key provider s = ground arith
pool-register_key qc key provider s = ground arith
pool-register_key marketku key provider s = ground arith

register_key_lem :
    (key provider : String) (s : State)
    → (lookup key (register_key key provider s).key_statuses ≡ some standby)
      × (elem provider (register_key key provider s).disabled_providers ≡ false)
      × ((register_key key provider s).custom_provider_keys ≡ s.custom_provider_keys)
      × ((register_key key provider s).custom_providers ≡ s.custom_providers)
unfolding register_key
register_key_lem key provider s = (
  ground (arith, lookup-insert key key standby s.key_statuses, eq_refl key),
  ground (arith, elem-keep provider s.disabled_providers),
  ground arith,
  ground arith,
)

add_api_key_eq :
    (text key_type : String) (s t : State)
    → nonempty (strip text) ≡ true
    → is_listed (strip text) s ≡ false
    → append_key (strip text) key_type s ≡ some t
    → add_api_key text key_type s
      ≡ ((true, "Key added successfully"), register_key (strip text) key_type t)
unfolding add_api_key
add_api_key_eq text key_type s t h fresh appended = ground arith

-- A text that is not blank and whose stripped form no pool lists is accepted for a built-in provider:
-- the key goes to the end of that provider's pool, whose index and the other pools stay; its status is
-- standby, and the provider is not disabled afterwards.
pub add_api_key_builtin :
    (text key_type : String) (b : Builtin) (s : State)
    → nonempty (strip text) ≡ true
    → is_listed (strip text) s ≡ false
    → builtin_of key_type ≡ some b
    → ((add_api_key text key_type s).0 ≡ (true, "Key added successfully"))
      × ((pool b (add_api_key text key_type s).1).keys ≡ snoc (pool b s).keys (strip text))
      × ((pool b (add_api_key text key_type s).1).index ≡ (pool b s).index)
      × ((c : Builtin) → (b ≡ c) ⊎ (pool c (add_api_key text key_type s).1 ≡ pool c s))
      × (lookup (strip text) (add_api_key text key_type s).1.key_statuses ≡ some standby)
      × (elem key_type (add_api_key text key_type s).1.disabled_providers ≡ false)
unfolding append_key
add_api_key_builtin text key_type b s h fresh named =
    let key = strip text in
    let t = set_pool b (record (pool b s) { keys = snoc (pool b s).keys key }) s in
    let (status, enabled, _, _) = register_key_lem key key_type t in
    let p = pool-register_key b key key_type t ∙ pool-set_pool_self b _ s in
    rw (add_api_key_eq text key_type s t h fresh (rw (named, append_key))) (
      refl,
      ap (λ q. q.keys) p,
      ap (λ q. q.index) p,
      λ c. unless_same b c (λ ne. pool-register_key c key key_type t ∙ pool-set_pool_ne b c _ s ne),
      status,
      enabled,
    )

-- Every refusal leaves the whole state as it was.
pub add_api_key_refused :
    (text key_type : String) (s : State)
    → (add_api_key text key_type s).0.0 ≡ false
    → add_api_key text key_type s ≡ (
      (
        false,
        if not (nonempty (strip text))
            then "Key cannot be empty"
            else if is_listed (strip text) s
            then "Key already exists"
            else "Unknown provider: " +text+ key_type,
      ),
      s,
    )
unfolding add_api_key
add_api_key_refused text key_type s h = elim (Option-cases (append_key (strip text) key_type s)) [
  | inl unknown_type ↦ ground arith
  | inr (t, appended) ↦ ground arith
]
