-- ===== src/Proxy/Dispatch/Order.antt =====
-- Positions in the order of the attempts, and how a rotation moves them (app/routers/proxy.py).
use native.Mathlib.Nat.{mod-eq_of_lt, add-mod_right}
use custorouter.Common.{
  length-drop, length-take, elem-append, ◌||◌, ℕ, zero, suc, ◌+◌, ◌-◌, ◌%◌, ◌≤◌, ◌<◌, ◌≡◌, refl,
  inl, inr, true, some, String, List, [], ◌∷◌, ◌++◌, arith, length, length-append, get_elem?, take,
  drop, elem, count, eq_iff, Bool-cases, ◌∙◌, sym, ap, ltb,
}
use custorouter.Proxy.Dispatch.{ring_from}

get_elem?-drop : (i j : ℕ) (xs : List String) → get_elem? (drop i xs) j ≡ get_elem? xs (i + j)
get_elem?-drop zero j xs = ap (get_elem? xs) {x = j} {y = 0 + j} (omega arith)
get_elem?-drop (suc i) j [] = ground arith
get_elem?-drop (suc i) j (x ∷ xs) =
    get_elem?-drop i j xs ∙ ap (get_elem? (x ∷ xs)) {x = suc (i + j)} {y = suc i + j} (omega arith)

get_elem?-take : (i j : ℕ) (xs : List String) → j < i → get_elem? (take i xs) j ≡ get_elem? xs j
get_elem?-take zero j xs h = absurd (omega arith)
get_elem?-take (suc i) j [] h = refl
get_elem?-take (suc i) zero (x ∷ xs) h = refl
get_elem?-take (suc i) (suc j) (x ∷ xs) h = get_elem?-take i j xs (omega arith)

get_elem?-append_left :
    (j : ℕ) (xs ys : List String) → j < length xs → get_elem? (xs ++ ys) j ≡ get_elem? xs j
get_elem?-append_left j [] ys h = absurd (omega arith)
get_elem?-append_left zero (x ∷ xs) ys h = refl
get_elem?-append_left (suc j) (x ∷ xs) ys h = get_elem?-append_left j xs ys (omega arith)

get_elem?-append_right :
    (j : ℕ) (xs ys : List String)
    → length xs ≤ j
    → get_elem? (xs ++ ys) j ≡ get_elem? ys (j - length xs)
get_elem?-append_right j [] ys h = ap (get_elem? ys) {x = j} {y = j - 0} (omega arith)
get_elem?-append_right zero (x ∷ xs) ys h = absurd (omega arith)
get_elem?-append_right (suc j) (x ∷ xs) ys h =
    get_elem?-append_right j xs ys (omega arith)
    ∙ ap (get_elem? ys) {x = j - length xs} {y = suc j - suc (length xs)} (omega arith)

pub length-ring_from :
    (i : ℕ) (keys : List String) → i ≤ length keys → length (ring_from i keys) ≡ length keys
length-ring_from i keys h =
    omega (arith, length-append (drop i keys) (take i keys), length-drop i keys, length-take i keys)

-- The order of the attempts runs around the ring of the keys.
pub get_elem?-ring_from :
    (i j : ℕ) (keys : List String)
    → i < length keys
    → j < length keys
    → get_elem? (ring_from i keys) j ≡ get_elem? keys ((i + j) % length keys)
get_elem?-ring_from i j keys hi hj =
    let n = length keys in
    let size = length-drop i keys in
    elim (Bool-cases (ltb j (n - i))) [
      | inl near ↦
          let close : j < n - i = ground arith in
          get_elem?-append_left j (drop i keys) (take i keys) (omega (arith, size, close))
          ∙ get_elem?-drop i j keys
          ∙ ap (get_elem? keys) (sym (mod-eq_of_lt {n = i + j} {m = n} (omega (arith, close))))
      | inr far ↦
          let beyond : n - i ≤ j = ground arith in
          let wrapped : (i + j) % n ≡ j - length (drop i keys) =
            ap (λ (t : ℕ). t % n) {x = i + j} {y = (j - length (drop i keys)) + n}
              (omega (arith, size, beyond))
            ∙ add-mod_right (j - length (drop i keys)) n
            ∙ mod-eq_of_lt {n = j - length (drop i keys)} {m = n} (omega (arith, size, beyond)) in
          get_elem?-append_right j (drop i keys) (take i keys) (omega (arith, size, beyond))
          ∙ get_elem?-take i (j - length (drop i keys)) keys (omega (arith, size, beyond))
          ∙ ap (get_elem? keys) (sym wrapped)
    ]

count_of_get_elem? :
    (xs : List String) (i : ℕ) {x : String} → get_elem? xs i ≡ some x → 1 ≤ count x xs
count_of_get_elem? [] i e = absurd (ground arith)
count_of_get_elem? (y ∷ ys) zero {x} e = ground (arith, eq_iff y x)
count_of_get_elem? (y ∷ ys) (suc i) {x} e = omega (arith, count_of_get_elem? ys i {x = x} e)

twice_counted :
    (y x : String) (ys : List String) (i : ℕ)
    → count x (y ∷ ys) ≤ 1
    → get_elem? {A = String} (y ∷ ys) 0 ≡ some x
    → get_elem? ys i ≡ some x
    → ⊥
twice_counted y x ys i h at also = ground (arith, eq_iff y x, count_of_get_elem? ys i {x = x} also)

-- A key that stands once in a list stands at one position.
pub position_unique :
    (xs : List String) (x : String) (i j : ℕ)
    → count x xs ≤ 1
    → get_elem? xs i ≡ some x
    → get_elem? xs j ≡ some x
    → i ≡ j
position_unique [] x i j h at also = absurd (ground arith)
position_unique (y ∷ ys) x zero zero h at also = refl
position_unique (y ∷ ys) x zero (suc j) h at also = absurd (twice_counted y x ys j h at also)
position_unique (y ∷ ys) x (suc i) zero h at also = absurd (twice_counted y x ys i h also at)
position_unique (y ∷ ys) x (suc i) (suc j) h at also =
    ap suc (position_unique ys x i j (omega (arith, h)) at also)

elem-take-drop :
    (k : String) (i : ℕ) (xs : List String) → elem k xs ≡ (elem k (take i xs) || elem k (drop i xs))
elem-take-drop k zero xs = refl
elem-take-drop k (suc i) [] = refl
elem-take-drop k (suc i) (x ∷ xs) = ground (arith, elem-take-drop k i xs)

-- The order of the attempts has every key.
pub elem-ring_from :
    (k : String) (i : ℕ) (keys : List String)
    → elem k keys ≡ true
    → elem k (ring_from i keys) ≡ true
elem-ring_from k i keys h =
    ground (arith, elem-append k (drop i keys) (take i keys), elem-take-drop k i keys)
