-- ===== src/Common/Lists.antt =====
-- Lists measured and indexed by native numbers, under the library's names.
use Prim.Native.Nat.{ℕ, zero, suc, ◌+◌, ◌<◌, ◌≤◌, min, ◌-◌}
use mathlib.Core.Path.{◌≡◌, refl, ap}
use mathlib.Core.Bool.{Bool, true, false, ◌&&◌, ◌||◌}
use mathlib.Core.List.{List, [], ◌∷◌, ◌++◌}
use mathlib.Core.Option.{Option, none, some}
use native.Mathlib.Omega.{arith}
use mathlib.Core.Logic.{inl, inr}
use custorouter.Common.Tests.{ltb, if◌then◌else◌, Bool-cases, Option-cases}

module _ {ℓ} {A : Type ℓ} where
  abbrev pub length : List A → ℕ
  length [] = 0
  length (x ∷ xs) = suc (length xs)

  abbrev pub get_elem? : List A → ℕ → Option A
  get_elem? [] i = none
  get_elem? (x ∷ xs) zero = some x
  get_elem? (x ∷ xs) (suc i) = get_elem? xs i

  -- `xs[:n]`
  abbrev pub take : ℕ → List A → List A
  take zero xs = []
  take (suc n) [] = []
  take (suc n) (x ∷ xs) = x ∷ take n xs

  -- `xs[n:]`
  abbrev pub drop : ℕ → List A → List A
  drop zero xs = xs
  drop (suc n) [] = []
  drop (suc n) (x ∷ xs) = drop n xs

  abbrev pub is_empty : List A → Bool
  is_empty [] = true
  is_empty (x ∷ xs) = false

  -- `[x for x in xs if p(x)]`
  abbrev pub keep : (A → Bool) → List A → List A
  keep p [] = []
  keep p (x ∷ xs) = let rest = keep p xs in if p x then x ∷ rest else rest

  abbrev pub any : (A → Bool) → List A → Bool
  any p [] = false
  any p (x ∷ xs) = p x || any p xs

  abbrev pub all : (A → Bool) → List A → Bool
  all p [] = true
  all p (x ∷ xs) = p x && all p xs

  -- The first element that passes, as a loop with `break` finds it.
  abbrev pub find : (A → Bool) → List A → Option A
  find p [] = none
  find p (x ∷ xs) = if p x then some x else find p xs

  abbrev pub snoc : List A → A → List A
  snoc xs x = xs ++ x ∷ []

module _ {ℓ} {A : Type ℓ} where
  pub length-append : (xs ys : List A) → length (xs ++ ys) ≡ length xs + length ys
  length-append [] ys = omega arith
  length-append (x ∷ xs) ys = omega (arith, length-append xs ys)

  pub length-drop : (n : ℕ) (xs : List A) → length (drop n xs) ≡ length xs - n
  length-drop zero xs = omega arith
  length-drop (suc n) [] = omega arith
  length-drop (suc n) (x ∷ xs) = omega (arith, length-drop n xs)

  pub length-take : (n : ℕ) (xs : List A) → length (take n xs) ≡ min n (length xs)
  length-take zero xs = omega arith
  length-take (suc n) [] = omega arith
  length-take (suc n) (x ∷ xs) = omega (arith, length-take n xs)

  -- Without the element at a position, if there is one.
  abbrev pub remove_at : ℕ → List A → List A
  remove_at i [] = []
  remove_at zero (x ∷ xs) = xs
  remove_at (suc i) (x ∷ xs) = x ∷ remove_at i xs

  pub get_elem?-lt : (xs : List A) (i : ℕ) → i < length xs → (x : A) × (get_elem? xs i ≡ some x)
  get_elem?-lt [] i h = elim h [ ]
  get_elem?-lt (x ∷ xs) zero h = (x, refl)
  get_elem?-lt (x ∷ xs) (suc i) h = get_elem?-lt xs i (omega arith)

  pub get_elem?-ge : (xs : List A) (i : ℕ) → length xs ≤ i → get_elem? xs i ≡ none
  get_elem?-ge [] i h = refl
  get_elem?-ge (x ∷ xs) zero h = elim h [ ]
  get_elem?-ge (x ∷ xs) (suc i) h = get_elem?-ge xs i (omega arith)

  pub lt_of_get_elem? : (xs : List A) (i : ℕ) {x : A} → get_elem? xs i ≡ some x → i < length xs
  lt_of_get_elem? [] i e = cc
  lt_of_get_elem? (x ∷ xs) zero e = omega arith
  lt_of_get_elem? (x ∷ xs) (suc i) e = omega (arith, lt_of_get_elem? xs i e)

  pub length-keep : (p : A → Bool) (xs : List A) → length (keep p xs) ≤ length xs
  length-keep p [] = omega arith
  length-keep p (x ∷ xs) = ground (arith, length-keep p xs)

  pub length-snoc : (xs : List A) (x : A) → length (snoc xs x) ≡ suc (length xs)
  length-snoc [] x = refl
  length-snoc (y ∷ xs) x = ap suc (length-snoc xs x)

  -- A predicate on every element.
  abbrev pub All {κ} : (A → Type κ) → List A → Type κ
  All P [] = Unit
  All P (x ∷ xs) = P x × All P xs

  pub All-take {κ} : (P : A → Type κ) (n : ℕ) (xs : List A) → All P xs → All P (take n xs)
  All-take P zero xs h = tt
  All-take P (suc n) [] h = tt
  All-take P (suc n) (x ∷ xs) h = (h.0, All-take P n xs h.1)

-- `xs.index(x)` and `xs.remove(x)` go by the first element that passes.
module _ {ℓ} {A : Type ℓ} where
  abbrev pub index_where : (A → Bool) → List A → Option ℕ
  index_where p [] = none
  index_where p (x ∷ xs) =
      let rest = index_where p xs in
      if p x then some 0 else elim rest [ none ↦ none | some i ↦ some (suc i) ]

  abbrev pub remove_where : (A → Bool) → List A → List A
  remove_where p [] = []
  remove_where p (x ∷ xs) = let rest = remove_where p xs in if p x then xs else x ∷ rest

  pub index_where-found :
      (p : A → Bool) (xs : List A) {i : ℕ}
      → index_where p xs ≡ some i
      → (x : A) × (get_elem? xs i ≡ some x) × (p x ≡ true)
  index_where-found p [] e = cc
  index_where-found p (x ∷ xs) {i} e = elim (Bool-cases (p x)) [
    | inl here ↦ (x, ground arith, here)
    | inr there ↦ elim (Option-cases (index_where p xs)) [
      | inl missing ↦ absurd (ground arith)
      | inr (j, found) ↦
          let (y, at, passes) = index_where-found p xs found in (y, ground arith, passes)
    ]
  ]

  pub length-remove_where :
      (p : A → Bool) (xs : List A) {j : ℕ}
      → index_where p xs ≡ some j
      → suc (length (remove_where p xs)) ≡ length xs
  length-remove_where p [] e = cc
  length-remove_where p (x ∷ xs) e = elim (Bool-cases (p x)) [
    | inl here ↦ ground arith
    | inr there ↦ elim (Option-cases (index_where p xs)) [
      | inl missing ↦ absurd (ground arith)
      | inr (i, found) ↦ ground (arith, length-remove_where p xs found)
    ]
  ]

  -- In front of the removed place the list is as it was, and behind it one place on.
  pub get_elem?-remove_where :
      (p : A → Bool) (xs : List A) (i : ℕ) {j : ℕ}
      → index_where p xs ≡ some j
      → get_elem? (remove_where p xs) i ≡ (if ltb i j then get_elem? xs i else get_elem? xs (suc i))
  get_elem?-remove_where p [] i e = cc
  get_elem?-remove_where p (x ∷ xs) zero {j} e = ground arith
  get_elem?-remove_where p (x ∷ xs) (suc i) {j} e = elim (Option-cases (index_where p xs)) [
    | inl missing ↦ ground arith
    | inr (k, found) ↦ ground (arith, get_elem?-remove_where p xs i found)
  ]

  pub index_where-lt :
      (p : A → Bool) (xs : List A) {j : ℕ} → index_where p xs ≡ some j → j < length xs
  index_where-lt p xs e = let (x, at, _) = index_where-found p xs e in lt_of_get_elem? xs _ at

  pub index_where_total :
      (p : A → Bool) (xs : List A) (i : ℕ) {x : A}
      → get_elem? xs i ≡ some x
      → p x ≡ true
      → (j : ℕ) × (index_where p xs ≡ some j)
  index_where_total p [] i e h = cc
  index_where_total p (y ∷ xs) zero e h = (0, ground arith)
  index_where_total p (y ∷ xs) (suc i) e h =
      let (j, found) = index_where_total p xs i e h in
      elim (Bool-cases (p y)) [ inl here ↦ (0, ground arith) | inr there ↦ (suc j, ground arith) ]
