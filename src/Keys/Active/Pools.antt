-- ===== src/Keys/Active/Pools.antt =====
-- The comparison of a key list by its contents, while no key stands in two places (app/config.py).
use custorouter.Common.{
  count, ◌+◌, ◌≤◌, ◌≡◌, refl, ◌≢◌, ◌⊎◌, inl, inr, some, String, List, [], ◌∷◌, arith, eq_refl,
  Bool-cases, ◌∙◌, sym, ap,
}
use custorouter.Keys.State.{Builtin, Builtin-discrete, bm, nry, dahl, qc, marketku, State, pool}
use custorouter.Keys.Add.{builtins}
use custorouter.Keys.Add.Distinct.{occurrences, IsDistinct}
use custorouter.Keys.Remove.{list_eq, branch_from, branch_of}
use custorouter.Keys.Remove.Locate.{list_eq_iff, branch_here, branch_later}

count_two :
    (b c : Builtin) (k : String) (s : State)
    → b ≢ c
    → count k (pool b s).keys + count k (pool c s).keys ≤ occurrences k s
count_two bm c k s h = ground arith
count_two nry c k s h = ground arith
count_two dahl c k s h = ground arith
count_two qc c k s h = ground arith
count_two marketku c k s h = ground arith

abbrev In : Builtin → List Builtin → Type 0
In b [] = ⊥
In b (c ∷ bs) = (c ≡ b) ⊎ In b bs

branch_from-distinct :
    (bs : List Builtin) (b : Builtin) (x : String) (xs : List String) (s : State)
    → IsDistinct s
    → (pool b s).keys ≡ x ∷ xs
    → In b bs
    → branch_from bs (pool b s).keys s ≡ some b
branch_from-distinct [] b x xs s d e h = absurd h
branch_from-distinct (c ∷ bs) b x xs s d e h = elim (Builtin-discrete c b) [
  | yes same ↦
      branch_here c bs (pool b s).keys s (ap (λ q. (pool q s).keys) (sym same)) ∙ ap some same
  | no differs ↦ elim (Bool-cases (list_eq (pool b s).keys (pool c s).keys)) [
    | inl equal ↦
        let also : (pool c s).keys ≡ x ∷ xs = sym (list_eq_iff _ _ equal) ∙ e in
        let one : count x (pool b s).keys ≡ 1 + count x xs = rw (e, eq_refl) in
        let two : count x (pool c s).keys ≡ 1 + count x xs = rw (also, eq_refl) in
        absurd (omega (arith, d x, count_two c b x s differs, one, two))
    | inr other ↦
        branch_later c bs (pool b s).keys s other
        ∙ branch_from-distinct bs b x xs s d e
            (elim h [ inl same ↦ absurd (differs same) | inr t ↦ t ])
  ]
]

-- While no key stands in two places, the comparison of a list by its contents finds its own pool.
pub branch_of-distinct :
    (b : Builtin) (x : String) (xs : List String) (s : State)
    → IsDistinct s
    → (pool b s).keys ≡ x ∷ xs
    → branch_of (pool b s).keys s ≡ some b
unfolding branch_of
branch_of-distinct b x xs s d e = branch_from-distinct builtins b x xs s d e (listed b)
  where
    listed : (q : Builtin) → In q builtins
    listed bm = inl refl
    listed nry = inr (inl refl)
    listed dahl = inr (inr (inl refl))
    listed qc = inr (inr (inr (inl refl)))
    listed marketku = inr (inr (inr (inr (inl refl))))
