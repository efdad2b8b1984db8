-- ===== src/Keys/Custom/Removal.antt =====
-- What the removal of a custom provider's key leaves behind (app/config.py).
use custorouter.Common.{
  if◌then◌else◌, elem-get_elem?, ℕ, ◌+◌, ◌%◌, ◌<◌, ◌≡◌, refl, ◌⊎◌, inl, inr, true, false, not, ◌&&◌,
  none, String, List, arith, leb, length, is_empty, get_elem?-lt, lookup, lookup-insert,
  lookup-erase, eq_iff, eq_refl, str_eq, elem, remove_where, max, Bool-cases, ◌∙◌,
}
use custorouter.Keys.State.{State, send, delete_key, active}
use custorouter.Keys.Rotation.{activate}
use custorouter.Keys.Custom.{
  keys_of, index_of, get_current_custom_key, rotate_custom_key, drop_custom_key, remove_custom_key,
}
use custorouter.Keys.Custom.Laws.{mod-lt-len}

-- `keys.remove(key)`
abbrev pub without : String → List String → List String
without key keys = remove_where (λ k. str_eq k key) keys

mod_max-lt : (i n : ℕ) → i % max n 1 < max n 1
mod_max-lt i n = grind arith

-- What a rotation keeps of the lists, the indices and the statuses.
rotate_keeps :
    (prefix : String) (s : State)
    → index_of prefix s < max (length (keys_of prefix s)) 1
    → ((p : String) → keys_of p (rotate_custom_key prefix s).1 ≡ keys_of p s)
      × (index_of prefix (rotate_custom_key prefix s).1 < max (length (keys_of prefix s)) 1)
      × ((k : String)
          → elem k (keys_of prefix s) ≡ false
          → lookup k (rotate_custom_key prefix s).1.key_statuses ≡ lookup k s.key_statuses)
unfolding rotate_custom_key activate
rotate_keeps prefix s h = elim (Bool-cases (leb (length (keys_of prefix s)) 1)) [
  | inl short ↦ (λ p. ground arith, ground arith, λ k ne. ground arith)
  | inr long ↦
      let n : ℕ = length (keys_of prefix s) in
      let i : ℕ = (index_of prefix s + 1) % n in
      let lt : i < n = mod-lt-len (index_of prefix s + 1) n (ground arith) in
      let (k', e) = get_elem?-lt (keys_of prefix s) i lt in
      (
        λ p. ground arith,
        ground (arith, lookup-insert prefix prefix i s.custom_key_index, eq_refl prefix),
        λ k ne. ground (
          arith,
          lookup-insert k' k active s.key_statuses,
          eq_iff k' k,
          elem-get_elem? (keys_of prefix s) i e,
        ),
      )
]

drop_keeps :
    (prefix key : String) (s : State)
    → (keys_of prefix (drop_custom_key prefix key s) ≡ without key (keys_of prefix s))
      × ((p : String)
          → keys_of p (drop_custom_key prefix key s)
            ≡ (if str_eq prefix p then without key (keys_of prefix s) else keys_of p s))
      × (index_of prefix (drop_custom_key prefix key s)
          < max (length (keys_of prefix (drop_custom_key prefix key s))) 1)
      × (lookup key (drop_custom_key prefix key s).key_statuses ≡ none)
unfolding drop_custom_key
drop_keeps prefix key s =
    let keys = without key (keys_of prefix s) in
    let i : ℕ = index_of prefix s % max (length keys) 1 in
    let listed = lookup-insert prefix prefix keys s.custom_provider_keys in
    let placed = lookup-insert prefix prefix i s.custom_key_index in
    (
      ground (arith, listed, eq_refl prefix),
      λ p. ground (arith, lookup-insert prefix p keys s.custom_provider_keys),
      rw (listed, placed, eq_refl prefix) (mod_max-lt (index_of prefix s) (length keys)),
      ground (arith, lookup-erase key key s.key_statuses, eq_refl key),
    )

-- What a removal does to a state in which the provider's pool lists the key.
pub record IsRemoved (prefix key : String) (s t : State) : Type 0 where
  pub pools :
      (p : String)
      → keys_of p t ≡ (if str_eq prefix p then without key (keys_of prefix s) else keys_of p s)
  pub index_in_range : index_of prefix t < max (length (keys_of prefix t)) 1
  pub status_dropped :
      (elem key (without key (keys_of prefix s)) ≡ true) ⊎ (lookup key t.key_statuses ≡ none)

remove_custom_key_found :
    (prefix key : String) (s : State)
    → elem key (keys_of prefix s) ≡ true
    → (remove_custom_key prefix key s ≡ (
      (true, "Key removed successfully"),
      send (delete_key key) (drop_custom_key prefix key s),
    ))
      ⊎ (remove_custom_key prefix key s ≡ (
        (true, "Key removed successfully"),
        send (delete_key key) (rotate_custom_key prefix (drop_custom_key prefix key s)).1,
      ))
unfolding remove_custom_key
remove_custom_key_found prefix key s h =
    elim (Bool-cases (
      str_eq (get_current_custom_key prefix s) key
      && not (is_empty (keys_of prefix (drop_custom_key prefix key s))))) [
        | inl rotated ↦ inr (ground arith)
        | inr kept ↦ inl (ground arith)
      ]

remove_custom_key-IsRemoved :
    (prefix key : String) (s : State)
    → elem key (keys_of prefix s) ≡ true
    → ((remove_custom_key prefix key s).0 ≡ (true, "Key removed successfully"))
      × IsRemoved prefix key s (remove_custom_key prefix key s).1
remove_custom_key-IsRemoved prefix key s listed =
    let d : State = drop_custom_key prefix key s in
    let (shrunk, others, range, gone) = drop_keeps prefix key s in
    let (same, placed, quiet) = rotate_keeps prefix d range in
    elim (remove_custom_key_found prefix key s listed) [
      | inl e ↦
          rw e (refl, record { pools = others; index_in_range = range; status_dropped = inr gone })
      | inr e ↦ rw e (
        refl,
        record {
          pools = λ p. same p ∙ others p;
          index_in_range = rw (same prefix) placed;
          status_dropped = elim (Bool-cases (elem key (without key (keys_of prefix s)))) [
            | inl twice ↦ inl twice
            | inr once ↦ inr (quiet key (rw shrunk once) ∙ gone)
          ];
        },
      )
    ]

-- The removal of a listed key takes its first entry out of that provider's pool and out of no other,
-- leaves the provider's index at a key (or at 0 in an empty pool), and drops the key's status unless
-- the pool listed it twice. A key that the pool does not list is refused, and nothing changes.
pub remove_custom_key_lem :
    (prefix key : String) (s : State)
    → ((elem key (keys_of prefix s) ≡ true)
        × ((remove_custom_key prefix key s).0 ≡ (true, "Key removed successfully"))
        × IsRemoved prefix key s (remove_custom_key prefix key s).1)
      ⊎ ((elem key (keys_of prefix s) ≡ false)
          × (remove_custom_key prefix key s ≡ ((false, "Key not found"), s)))
unfolding remove_custom_key
remove_custom_key_lem prefix key s = elim (Bool-cases (elem key (keys_of prefix s))) [
  | inr missing ↦ inr (missing, ground arith)
  | inl listed ↦
      let (reply, removed) = remove_custom_key-IsRemoved prefix key s listed in
      inl (listed, reply, removed)
]
