-- ===== src/Keys/Active/Search.antt =====
-- The searches of `set_active_key` of app/config.py.
use mathlib.Core.Path.{subst}
use custorouter.Common.{
  find, has_prefix, nonempty, ◌≡◌, inl, inr, Bool, true, Option, none, some, String, List, [], ◌∷◌,
  arith, elem, eq_iff, Bool-cases, Option-cases,
}
use custorouter.Keys.State.{Builtin, State, pool}
use custorouter.Keys.Add.{builtins, builtin_of}
use custorouter.Keys.Remove.Locate.{find_key_sound}
use custorouter.Keys.Active.{target_of, key_in, search_lists, from_search}

-- What the searches find stands in the pool that they name.
abbrev Stands : State → Option (Builtin × String) → Type 0
Stands s none = Unit
Stands s (some (b, k)) = elem k (pool b s).keys ≡ true

elem-find :
    (p : String → Bool) (xs : List String) {k : String} → find p xs ≡ some k → elem k xs ≡ true
elem-find p [] e = cc
elem-find p (x ∷ xs) {k} e = elim (Bool-cases (p x)) [
  | inl here ↦ ground (arith, eq_iff x k)
  | inr there ↦ ground (arith, elem-find p xs {k = k})
]

search_lists_sound :
    (bs : List Builtin) (key_prefix : String) (last : Option (Builtin × String)) (s : State)
    {b : Builtin} {k : String}
    → Stands s last
    → search_lists bs key_prefix last s ≡ some (b, k)
    → Stands s (some (b, k))
unfolding search_lists
search_lists_sound [] key_prefix last s h e = subst (Stands s) e h
search_lists_sound (c ∷ bs) key_prefix last s {b} {k} h e =
    elim (Option-cases (find (λ x. has_prefix x key_prefix) (pool c s).keys)) [
      | inl missed ↦ search_lists_sound bs key_prefix last s h (ground arith)
      | inr (x, hit) ↦
          let here : Stands s (some (c, x)) = elem-find (λ y. has_prefix y key_prefix) _ hit in
          elim (Bool-cases (nonempty x)) [
            | inl full ↦
                let same : ◌≡◌ {A = Option (Builtin × String)} (some (c, x)) (some (b, k)) =
                  ground arith in
                subst (Stands s) same here
            | inr blank ↦ search_lists_sound bs key_prefix (some (c, x)) s here (ground arith)
          ]
    ]

none-ne-some :
    (c b : Builtin) (k : String)
    → ◌≡◌ {A = Option (Builtin × Option String)} (some (c, none)) (some (b, some k))
    → ⊥
none-ne-some c b k e = ground arith

from_search_inj :
    (r : Option (Builtin × String)) {b : Builtin} {k : String}
    → from_search r ≡ some (b, some k)
    → r ≡ some (b, k)
from_search_inj none e = cc
from_search_inj (some (c, j)) e = ground arith

searched_of_target :
    (key_prefix : String) (provider : Option String) (b : Builtin) (k : String) (s : State)
    → target_of key_prefix provider s ≡ some (b, some k)
    → search_lists builtins key_prefix none s ≡ some (b, k)
unfolding target_of
searched_of_target key_prefix none b k s e = from_search_inj _ e
searched_of_target key_prefix (some provider) b k s e = elim (Option-cases (builtin_of provider)) [
  | inl custom ↦ from_search_inj _ (rw (custom, target_of) at e)
  | inr (c, named) ↦ absurd (none-ne-some c b k (rw (named, target_of) at e))
]

pub key_in_sound :
    (key_prefix : String) (provider : Option String) (b : Builtin) (chosen : Option String)
    (key : String) (s : State)
    → target_of key_prefix provider s ≡ some (b, chosen)
    → key_in key_prefix b chosen s ≡ some key
    → elem key (pool b s).keys ≡ true
unfolding target_of key_in
key_in_sound key_prefix provider b none key s target found =
    (find_key_sound key_prefix (pool b s).keys found).0
key_in_sound key_prefix provider b (some k) key s target found = elim (Bool-cases (nonempty k)) [
  | inr blank ↦ (find_key_sound key_prefix (pool b s).keys (ground arith)).0
  | inl full ↦
      let same : k ≡ key = ground arith in
      let searched : search_lists builtins key_prefix none s ≡ some (b, k) =
        searched_of_target key_prefix provider b k s target in
      rw (← same) (search_lists_sound builtins key_prefix none s tt searched)
]
