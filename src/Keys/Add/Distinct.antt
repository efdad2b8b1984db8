-- ===== src/Keys/Add/Distinct.antt =====
-- How often a key stands in the pools of app/config.py, before and after `add_api_key`.
use custorouter.Common.{
  ℕ, ◌+◌, ◌≤◌, ◌≡◌, inl, inr, false, not, ◌&&◌, some, String, List, [], ◌∷◌, arith, if◌then◌else◌,
  snoc, lookup, insert, str_eq, eq_iff, nonempty, strip, Dict, or_else, Bool-cases, Option-cases,
  is_some, count, count-append, count-elem, count-snoc,
}
use custorouter.Keys.State.{Builtin, bm, nry, dahl, qc, marketku, State, pool, set_pool}
use custorouter.Keys.Custom.{keys_of}
use custorouter.Keys.Add.{custom_keys, is_listed, append_key, register_key, add_api_key, builtin_of}

-- How often a key stands in the pools, the built-in and the custom ones.
abbrev pub occurrences : String → State → ℕ
occurrences k s =
    count k s.bm_pool.keys
    + count k s.nry_pool.keys
    + count k s.dahl_pool.keys
    + count k s.qc_pool.keys
    + count k s.marketku_pool.keys
    + count k (custom_keys s.custom_provider_keys)

-- Every key stands in one place at most.
abbrev pub IsDistinct : State → Type 0
IsDistinct s = (k : String) → occurrences k s ≤ 1

count-custom_keys :
    (k p : String) (v : List String) (d : Dict (List String))
    → count k (custom_keys (insert p v d)) + count k (or_else (lookup p d) [])
      ≡ count k (custom_keys d) + count k v
unfolding lookup insert
count-custom_keys k p v [] = omega (arith, count-append k v [])
count-custom_keys k p v ((j, keys) ∷ d) = grind (
  arith,
  count-custom_keys k p v d,
  count-append k v (custom_keys d),
  count-append k keys (custom_keys d),
  count-append k keys (custom_keys (insert p v d)),
)

occurrences-set_pool :
    (k key : String) (b : Builtin) (s : State)
    → occurrences k (set_pool b (record (pool b s) { keys = snoc (pool b s).keys key }) s)
      ≡ occurrences k s + (if str_eq key k then 1 else 0)
occurrences-set_pool k key bm s = omega (arith, count-snoc k key s.bm_pool.keys)
occurrences-set_pool k key nry s = omega (arith, count-snoc k key s.nry_pool.keys)
occurrences-set_pool k key dahl s = omega (arith, count-snoc k key s.dahl_pool.keys)
occurrences-set_pool k key qc s = omega (arith, count-snoc k key s.qc_pool.keys)
occurrences-set_pool k key marketku s = omega (arith, count-snoc k key s.marketku_pool.keys)

occurrences-append_key :
    (k key key_type : String) (s t : State)
    → append_key key key_type s ≡ some t
    → occurrences k t ≡ occurrences k s + (if str_eq key k then 1 else 0)
unfolding append_key
occurrences-append_key k key key_type s t e = elim (Option-cases (builtin_of key_type)) [
  | inr (b, named) ↦ ground (arith, occurrences-set_pool k key b s)
  | inl custom ↦ elim (Bool-cases (is_some (lookup key_type s.custom_providers))) [
    | inl known ↦
        let v = snoc (keys_of key_type s) key in
        ground (
          arith,
          count-custom_keys k key_type v s.custom_provider_keys,
          count-snoc k key (keys_of key_type s),
        )
    | inr missing ↦ absurd (ground arith)
  ]
]

occurrences-register_key :
    (k key provider : String) (s : State)
    → occurrences k (register_key key provider s) ≡ occurrences k s
unfolding register_key
occurrences-register_key k key provider s = ground arith

occurrences-fresh : (key : String) (s : State) → is_listed key s ≡ false → occurrences key s ≡ 0
unfolding is_listed
occurrences-fresh key s h = ground (
  arith,
  count-elem key s.bm_pool.keys,
  count-elem key s.nry_pool.keys,
  count-elem key s.dahl_pool.keys,
  count-elem key s.qc_pool.keys,
  count-elem key s.marketku_pool.keys,
  count-elem key (custom_keys s.custom_provider_keys),
)

-- If every key stands in one place at most, then so it does after any call of `add_api_key`, whatever
-- text and provider it is given.
pub add_api_key-IsDistinct :
    (text key_type : String) (s : State) → IsDistinct s → IsDistinct (add_api_key text key_type s).1
unfolding add_api_key
add_api_key-IsDistinct text key_type s h k =
    let key = strip text in
    elim (Bool-cases (nonempty key && not (is_listed key s))) [
      | inr refused ↦ ground (arith, h k)
      | inl fresh ↦ elim (Option-cases (append_key key key_type s)) [
        | inl unknown_type ↦ ground (arith, h k)
        | inr (t, appended) ↦
            let before = occurrences-append_key k key key_type s t appended in
            let after = occurrences-register_key k key key_type t in
            elim (Bool-cases (str_eq key k)) [
              | inl same ↦
                  let none_yet : occurrences k s ≡ 0 =
                    rw (← ((eq_iff key k).0 same)) (occurrences-fresh key s (ground arith)) in
                  ground arith
              | inr differs ↦ ground (arith, h k)
            ]
      ]
    ]
