-- ===== src/Keys/Remove/Locate.antt =====
-- Where `remove_api_key` of app/config.py finds a key, and its comparison of lists by contents.
use custorouter.Common.{
  ◌≡◌, refl, inl, inr, true, false, Option, some, String, List, [], ◌∷◌, arith, eq_iff, eq_refl,
  has_prefix, elem, sym, Option-cases, Bool-cases, ap, ◌∙◌,
}
use custorouter.Keys.State.{Builtin, State, pool}
use custorouter.Keys.Add.{builtins}
use custorouter.Keys.Remove.{find_key, locate_from, locate, list_eq, branch_from, branch_of}

pub list_eq_iff : (xs ys : List String) → list_eq xs ys ≡ true → xs ≡ ys
list_eq_iff [] [] h = refl
list_eq_iff [] (y ∷ ys) h = cc
list_eq_iff (x ∷ xs) [] h = cc
list_eq_iff (x ∷ xs) (y ∷ ys) h = ground (arith, eq_iff x y, list_eq_iff xs ys)

pub list_eq_refl : (xs : List String) → list_eq xs xs ≡ true
list_eq_refl [] = refl
list_eq_refl (x ∷ xs) = ground (arith, eq_refl x, list_eq_refl xs)

-- A key that is found stands in the pool that is named, and has the prefix.
pub find_key_sound :
    (key_prefix : String) (keys : List String) {key : String}
    → find_key key_prefix keys ≡ some key
    → (elem key keys ≡ true) × (has_prefix key key_prefix ≡ true)
unfolding find_key
find_key_sound key_prefix [] e = cc
find_key_sound key_prefix (x ∷ xs) {key} e = elim (Bool-cases (has_prefix x key_prefix)) [
  | inl here ↦ (ground (arith, eq_iff x key), ground arith)
  | inr there ↦
      let (h, p) = find_key_sound key_prefix xs {key = key} (ground arith) in (ground arith, p)
]

locate_from_sound :
    (bs : List Builtin) (key_prefix : String) (s : State) {b : Builtin} {key : String}
    → locate_from bs key_prefix s ≡ some (b, key)
    → find_key key_prefix (pool b s).keys ≡ some key
unfolding locate_from
locate_from_sound [] key_prefix s e = cc
locate_from_sound (c ∷ bs) key_prefix s {b} {key} e =
    elim (Option-cases (find_key key_prefix (pool c s).keys)) [
      | inl missed ↦ locate_from_sound bs key_prefix s (ground arith)
      | inr (k, found) ↦
          let same : ◌≡◌ {A = Option (Builtin × String)} (some (c, k)) (some (b, key)) =
            ground arith in
          let at : c ≡ b = cc in rw (← at) (found ∙ cc)
    ]

pub branch_here :
    (c : Builtin) (bs : List Builtin) (keys : List String) (s : State)
    → keys ≡ (pool c s).keys
    → branch_from (c ∷ bs) keys s ≡ some c
unfolding branch_from
branch_here c bs keys s e = rw (e, list_eq_refl)

pub branch_later :
    (c : Builtin) (bs : List Builtin) (keys : List String) (s : State)
    → list_eq keys (pool c s).keys ≡ false
    → branch_from (c ∷ bs) keys s ≡ branch_from bs keys s
unfolding branch_from
branch_later c bs keys s e = rw e

branch_from-locate :
    (bs : List Builtin) (key_prefix : String) (s : State) {b : Builtin} {key : String}
    → locate_from bs key_prefix s ≡ some (b, key)
    → branch_from bs (pool b s).keys s ≡ some b
unfolding locate_from
branch_from-locate [] key_prefix s e = cc
branch_from-locate (c ∷ bs) key_prefix s {b} {key} e =
    elim (Option-cases (find_key key_prefix (pool c s).keys)) [
      | inl missed ↦ elim (Bool-cases (list_eq (pool b s).keys (pool c s).keys)) [
        | inl same ↦
            let keys = list_eq_iff (pool b s).keys (pool c s).keys same in
            cc (locate_from_sound (c ∷ bs) key_prefix s e, ap (find_key key_prefix) keys, missed)
        | inr differs ↦
            branch_later c bs (pool b s).keys s differs
            ∙ branch_from-locate bs key_prefix s {b = b} {key = key} (ground arith)
      ]
      | inr (k, found) ↦
          let same : ◌≡◌ {A = Option (Builtin × String)} (some (c, k)) (some (b, key)) =
            ground arith in
          let at : c ≡ b = cc in
          branch_here c bs (pool b s).keys s (ap (λ x. (pool x s).keys) (sym at)) ∙ ap some at
    ]

-- Although the code compares the lists by their contents, the branch that it takes for a key that it
-- found is the one of the pool where it found it.
pub branch_of-locate :
    (key_prefix : String) (s : State) {b : Builtin} {key : String}
    → locate key_prefix s ≡ some (b, key)
    → branch_of (pool b s).keys s ≡ some b
unfolding branch_of locate
branch_of-locate key_prefix s e = branch_from-locate builtins key_prefix s e

-- A key that is found stands in that pool and has the prefix.
pub locate_sound :
    (key_prefix : String) (s : State) {b : Builtin} {key : String}
    → locate key_prefix s ≡ some (b, key)
    → (elem key (pool b s).keys ≡ true) × (has_prefix key key_prefix ≡ true)
unfolding locate
locate_sound key_prefix s e =
    find_key_sound key_prefix _ (locate_from_sound builtins key_prefix s e)
