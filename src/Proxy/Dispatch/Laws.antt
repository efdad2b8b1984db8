-- ===== src/Proxy/Dispatch/Laws.antt =====
-- Which key answers a dispatch to a custom provider (app/routers/proxy.py).
use native.Mathlib.Nat.{mod-lt, mod-add-mod}
use custorouter.Common.{
  lt_of_get_elem?, elem-get_elem?, ℕ, suc, ◌+◌, ◌%◌, ◌≤◌, ◌<◌, ◌≡◌, refl, ◌≢◌, ◌⊎◌, inl, inr, Bool,
  false, Option, some, String, List, [], ◌∷◌, arith, is_empty, length, get_elem?, get_elem?-lt,
  or_else, lookup, str_eq, eq_iff, index_where, index_where-found, mod-add-suc, count, ◌∙◌, sym, ap,
}
use custorouter.Keys.State.{State, ProviderInfo}
use custorouter.Keys.Custom.{keys_of, index_of, get_current_custom_key, rotate_custom_key}
use custorouter.Keys.Custom.Laws.{rotate_custom_key_place, get_current_custom_key_at}
use custorouter.Keys.Remove.Laws.{index_of_elem}
use custorouter.Proxy.Dispatch.Order.{get_elem?-ring_from, length-ring_from, position_unique}
use custorouter.Proxy.Dispatch.{
  Answer, Outcome, outcome_of, ring_from, attempt_order, try_keys, dispatch_custom_provider,
}
use custorouter.Proxy.Dispatch.Attempts.{Follows, try_keys-current}

-- A list whose entries stand one behind another on the ring of the keys, from the provider's index on.
abbrev AtRing : String → List String → State → Type 0
AtRing prefix l s =
    (j : ℕ) (k : String)
    → get_elem? l j ≡ some k
    → get_elem? (keys_of prefix s) ((index_of prefix s + j) % length (keys_of prefix s)) ≡ some k

AtRing-first :
    (prefix k : String) (l : List String) (s : State)
    → AtRing prefix (k ∷ l) s
    → get_current_custom_key prefix s ≡ k
AtRing-first prefix k l s at =
    let i = index_of prefix s in
    let start : get_elem? (keys_of prefix s) (i % length (keys_of prefix s)) ≡ some k =
      ap (λ (t : ℕ). get_elem? (keys_of prefix s) (t % length (keys_of prefix s))) {x = i}
        {y = i + 0} (omega arith)
      ∙ at 0 k refl in
    get_current_custom_key_at prefix s start

AtRing-Follows :
    (prefix : String) (l : List String) (s : State)
    → (2 ≤ length (keys_of prefix s)) ⊎ (length l ≤ 1)
    → AtRing prefix l s
    → Follows prefix l s
AtRing-Follows prefix [] s h at = tt
AtRing-Follows prefix (k ∷ []) s h at = AtRing-first prefix k [] s at
AtRing-Follows prefix (k ∷ l ∷ ks) s h at =
    let keys = keys_of prefix s in
    let many : 2 ≤ length keys = elim h [ inl m ↦ m | inr short ↦ absurd (omega (arith, short)) ] in
    let (kept, moved) = rotate_custom_key_place prefix s many in
    (
      AtRing-first prefix k (l ∷ ks) s at,
      AtRing-Follows prefix (l ∷ ks) (rotate_custom_key prefix s).1 (inl (rw kept many)) (λ j x e.
          rw (kept, moved)
            (ap (get_elem? keys) (mod-add-suc (index_of prefix s) j (length keys))
              ∙ at (suc j) x e)),
    )

mod-lt_nonempty : (i : ℕ) (keys : List String) → keys ≢ [] → i % length keys < length keys
mod-lt_nonempty i [] ne = absurd (ne refl)
mod-lt_nonempty i (k ∷ ks) ne = mod-lt i (omega arith)

-- With every key once in the pool, the attempts start at the current key and run around the ring.
pub attempt_order_ring :
    (prefix : String) (s : State)
    → keys_of prefix s ≢ []
    → ((k : String) → count k (keys_of prefix s) ≤ 1)
    → (attempt_order prefix s
        ≡ ring_from (index_of prefix s % length (keys_of prefix s)) (keys_of prefix s))
unfolding attempt_order
attempt_order_ring prefix s ne once =
    let keys = keys_of prefix s in
    let i = index_of prefix s % length keys in
    let (k, at) = get_elem?-lt keys i (mod-lt_nonempty (index_of prefix s) keys ne) in
    let named = get_current_custom_key_at prefix s at in
    let (j, found) = index_of_elem k keys (elem-get_elem? keys i at) in
    let (y, there, equal) = index_where-found (λ x. str_eq x k) keys found in
    let same : j ≡ i =
      position_unique keys k j i (once k) (there ∙ ap some ((eq_iff y k).0 equal)) at in
    ap (λ c. ring_from (or_else (index_where (λ x. str_eq x c) keys) 0) keys) named
    ∙ ap (λ o. ring_from (or_else o 0) keys) found
    ∙ ap (λ n. ring_from n keys) same

attempt_order-Follows :
    (prefix : String) (s : State)
    → keys_of prefix s ≢ []
    → ((k : String) → count k (keys_of prefix s) ≤ 1)
    → Follows prefix (attempt_order prefix s) s
attempt_order-Follows prefix s ne once =
    let keys = keys_of prefix s in
    let n = length keys in
    let i = index_of prefix s % n in
    let lt = mod-lt_nonempty (index_of prefix s) keys ne in
    let size : length (ring_from i keys) ≡ n = length-ring_from i keys (omega (arith, lt)) in
    rw (attempt_order_ring prefix s ne once) (
      AtRing-Follows prefix (ring_from i keys) s (many_or_one n size) (λ j k at.
        let hj : j < n = omega (arith, size, lt_of_get_elem? (ring_from i keys) j at) in
        ap (get_elem? keys) (sym (mod-add-mod (index_of prefix s) n j))
        ∙ sym (get_elem?-ring_from i j keys lt hj)
        ∙ at))
  where
    many_or_one :
        (m : ℕ)
        → length (ring_from (index_of prefix s % length (keys_of prefix s)) (keys_of prefix s)) ≡ m
        → (2 ≤ m)
          ⊎ (length (ring_from (index_of prefix s % length (keys_of prefix s)) (keys_of prefix s))
              ≤ 1)
    many_or_one m e = ground (arith, e)

attempt_order-nonempty :
    (prefix : String) (s : State)
    → keys_of prefix s ≢ []
    → ((k : String) → count k (keys_of prefix s) ≤ 1)
    → attempt_order prefix s ≢ []
attempt_order-nonempty prefix s ne once e =
    let keys = keys_of prefix s in
    let i = index_of prefix s % length keys in
    let lt = mod-lt_nonempty (index_of prefix s) keys ne in
    let size = length-ring_from i keys (omega (arith, lt)) in
    absurd (omega (arith, lt, size, ap length (sym (attempt_order_ring prefix s ne once) ∙ e)))

try_keys-current_key :
    (attempt : String → Outcome) (prefix : String) (l : List String) (s : State)
    → l ≢ []
    → Follows prefix l s
    → (try_keys attempt prefix l s).0
      ≡ attempt (get_current_custom_key prefix (try_keys attempt prefix l s).1)
try_keys-current_key attempt prefix [] s ne h = absurd (ne refl)
try_keys-current_key attempt prefix (k ∷ ks) s ne h = try_keys-current attempt prefix k ks s h

pub dispatch_custom_provider_eq :
    (translate : String → Option String) (send : ProviderInfo → String → Answer) (prefix : String)
    (stream : Bool) (info : ProviderInfo) (s : State)
    → lookup prefix s.custom_providers ≡ some info
    → is_empty (keys_of prefix s) ≡ false
    → dispatch_custom_provider translate send prefix stream s
      ≡ try_keys
          (λ key. outcome_of translate info stream (send info key))
          prefix
          (attempt_order prefix s)
          s
unfolding dispatch_custom_provider
dispatch_custom_provider_eq translate send prefix stream info s known full =
    rw (known, dispatch_custom_provider, full) refl

pub is_empty_of_ne : (xs : List String) → xs ≢ [] → is_empty xs ≡ false
is_empty_of_ne [] ne = absurd (ne refl)
is_empty_of_ne (x ∷ xs) ne = refl

-- While every key stands once in the provider's pool, the answer of a dispatch is the outcome of the
-- attempt with the key that is the provider's current one afterwards, however many attempts failed.
pub dispatch_custom_provider-current :
    (translate : String → Option String) (send : ProviderInfo → String → Answer) (prefix : String)
    (stream : Bool) (info : ProviderInfo) (s : State)
    → lookup prefix s.custom_providers ≡ some info
    → keys_of prefix s ≢ []
    → ((k : String) → count k (keys_of prefix s) ≤ 1)
    → (dispatch_custom_provider translate send prefix stream s).0
      ≡ outcome_of translate info stream (
          send info (
            get_current_custom_key prefix
              (dispatch_custom_provider translate send prefix stream s).1))
dispatch_custom_provider-current translate send prefix stream info s known ne once =
    rw
      (dispatch_custom_provider_eq translate send prefix stream info s known
        (is_empty_of_ne (keys_of prefix s) ne))
      (try_keys-current_key (λ key. outcome_of translate info stream (send info key)) prefix
        (attempt_order prefix s) s (attempt_order-nonempty prefix s ne once)
        (attempt_order-Follows prefix s ne once))
