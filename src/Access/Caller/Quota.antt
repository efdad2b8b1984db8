-- ===== src/Access/Caller/Quota.antt =====
-- What a key can use up beyond its quota, over requests that are checked and billed
-- (app/routers/proxy.py, app/database.py).
use custorouter.Common.{
  ℕ, ◌+◌, ◌≤◌, ◌≡◌, ◌∙◌, refl, sym, subst, Bool, true, false, ◌&&◌, ◌||◌, none, some, String, List,
  [], ◌∷◌, ltb, ◌==◌, if◌then◌else◌, find, All, arith, Bool-cases, inl, inr, Option-cases, not,
  has_prefix, nonempty,
}
use custorouter.Access.Keys.{
  Row, has_quota, is_usable, verify_router_api_key, update_where, touch_router_api_key_last_used,
  add_router_key_token_usage,
}
use custorouter.Access.Caller.{
  claim_router_key_last_used_touch, Request, Touch, Checked, check_router_auth, token_of,
  check_token, check_key, touch_last_used, bill_router_key, compare_digest,
}

-- One request, from its check to its bill.
pub record Call : Type 0 where
  pub now : ℕ
  pub touch : Touch
  pub request : Request
  pub tokens : ℕ
  pub bill_fails : Bool

abbrev pub billed : Call → Checked → List Row → List Row
billed c Checked.type_error rows = rows
billed c (Checked.answered true key left) rows = bill_router_key c.bill_fails key c.tokens left
billed c (Checked.answered false key left) rows = left

unfoldable pub serve : String → Call → List Row → List Row
unfolding check_router_auth bill_router_key
serve password c rows = billed c (check_router_auth password c.now c.touch c.request rows) rows

unfoldable pub serve_all : String → List Call → List Row → List Row
unfolding serve
serve_all password [] rows = rows
serve_all password (c ∷ calls) rows = serve_all password calls (serve password c rows)

-- No two rows have one id.
abbrev pub IsKeyed : List Row → Type 0
IsKeyed [] = Unit
IsKeyed (r ∷ rows) = All (λ (x : Row). (x.id == r.id) ≡ false) rows × IsKeyed rows

-- A key with a quota has used less than `m` tokens beyond it.
abbrev pub is_within : ℕ → Row → Bool
is_within m r = r.token_quota == 0 || ltb r.tokens_used (r.token_quota + m)

-- The rows of an id still have quota left.
abbrev IsOpen : ℕ → List Row → Type 0
IsOpen id rows = All (λ (r : Row). (r.id == id) ≡ true → has_quota r ≡ true) rows

module _ (f : Row → Row) (same_id : (r : Row) → (f r).id ≡ r.id) where
  update-other :
      (id k : ℕ) (rows : List Row)
      → All (λ (x : Row). (x.id == k) ≡ false) rows
      → All (λ (x : Row). (x.id == k) ≡ false) (update_where id f rows)
  unfolding update_where
  update-other id k [] h = tt
  update-other id k (r ∷ rows) h =
      let ih = update-other id k rows h.1 in
      let e = same_id r in
      elim (Bool-cases (r.id == id)) [
        | inl here ↦ rw here (ground (arith, e, h.0), ih)
        | inr there ↦ rw there (h.0, ih)
      ]

  update-IsKeyed : (id : ℕ) (rows : List Row) → IsKeyed rows → IsKeyed (update_where id f rows)
  unfolding update_where
  update-IsKeyed id [] h = tt
  update-IsKeyed id (r ∷ rows) h =
      let ih = update-IsKeyed id rows h.1 in
      let apart = update-other id r.id rows h.0 in
      let e = same_id r in
      elim (Bool-cases (r.id == id)) [
        | inl here ↦ rw here (
          subst (λ (k : ℕ). All (λ (x : Row). (x.id == k) ≡ false) (update_where id f rows)) (sym e)
              apart,
          ih,
        )
        | inr there ↦ rw there (apart, ih)
      ]

  update-IsOpen :
      (same_quota : (r : Row) → has_quota (f r) ≡ has_quota r) (id k : ℕ) (rows : List Row)
      → IsOpen k rows
      → IsOpen k (update_where id f rows)
  unfolding update_where
  update-IsOpen same_quota id k [] h = tt
  update-IsOpen same_quota id k (r ∷ rows) h =
      let ih = update-IsOpen same_quota id k rows h.1 in
      let e = same_id r in
      let q = same_quota r in
      elim (Bool-cases (r.id == id)) [
        | inl here ↦ rw here ((λ i. q ∙ h.0 (subst (λ (n : ℕ). (n == k) ≡ true) e i)), ih)
        | inr there ↦ rw there (h.0, ih)
      ]

if_both : {A : Type 0} (P : A → Type 0) (b : Bool) {x y : A} → P x → P y → P (if b then x else y)
if_both P true h k = h
if_both P false h k = k

IsOpen-other :
    (id : ℕ) (rows : List Row) → All (λ (x : Row). (x.id == id) ≡ false) rows → IsOpen id rows
IsOpen-other id [] h = tt
IsOpen-other id (r ∷ rows) h = (λ i. ground (arith, h.0), IsOpen-other id rows h.1)

find-All :
    (P : Row → Type 0) (p : Row → Bool) (rows : List Row) {row : Row}
    → find p rows ≡ some row
    → All P rows
    → P row
find-All P p [] e h = cc
find-All P p (r ∷ rows) {row} e h = elim (Bool-cases (p r)) [
  | inl here ↦ let same : r ≡ row = ground arith in subst P same h.0
  | inr there ↦ find-All P p rows (ground arith) h.1
]

-- The key that is found has quota left, and no other row has its id.
verify-IsOpen :
    (now : ℕ) (key : String) (rows : List Row) (row : Row)
    → IsKeyed rows
    → verify_router_api_key now key rows ≡ some row
    → IsOpen row.id rows
unfolding verify_router_api_key
verify-IsOpen now key [] row h e = tt
verify-IsOpen now key (r ∷ rows) row h e = elim (Bool-cases (is_usable now key r)) [
  | inl here ↦
      let same : r ≡ row = ground arith in
      (
        λ i. ground arith,
        IsOpen-other row.id rows
            (subst (λ (k : Row). All (λ (x : Row). (x.id == k.id) ≡ false) rows) same h.0),
      )
  | inr there ↦
      let found : verify_router_api_key now key rows ≡ some row = ground arith in
      let apart =
        find-All (λ (x : Row). (x.id == r.id) ≡ false) (is_usable now key) rows found h.0 in
      (λ i. ground arith, verify-IsOpen now key rows row h.1 found)
]

module _ (m : ℕ) where
  abbrev IsBounded : List Row → Type 0
  IsBounded rows = All (λ (r : Row). is_within m r ≡ true) rows

  touch-IsBounded :
      (now id : ℕ) (rows : List Row)
      → IsBounded rows
      → IsBounded (touch_router_api_key_last_used now id rows)
  unfolding touch_router_api_key_last_used update_where
  touch-IsBounded now id [] h = tt
  touch-IsBounded now id (r ∷ rows) h =
      let ih = touch-IsBounded now id rows h.1 in
      elim (Bool-cases (r.id == id)) [
        | inl here ↦ rw here (h.0, ih)
        | inr there ↦ rw there (h.0, ih)
      ]

  spend-IsBounded :
      (id tokens : ℕ) (rows : List Row)
      → tokens ≤ m
      → IsOpen id rows
      → IsBounded rows
      → IsBounded (update_where id (λ r. record r { tokens_used = r.tokens_used + tokens }) rows)
  unfolding update_where
  spend-IsBounded id tokens [] small left h = tt
  spend-IsBounded id tokens (r ∷ rows) small left h =
      let ih = spend-IsBounded id tokens rows small left.1 h.1 in
      elim (Bool-cases (r.id == id)) [
        | inl here ↦ rw here (ground (arith, left.0), ih)
        | inr there ↦ rw there (h.0, ih)
      ]

touched :
    (P : List Row → Type 0) (now : ℕ) (touch : Touch) (row : Row) (rows : List Row)
    → P rows
    → P (touch_router_api_key_last_used now row.id rows)
    → P (touch_last_used now touch row rows)
unfolding touch_last_used
touched P now touch row rows h k =
    if_both P (claim_router_key_last_used_touch touch.created && not touch.fails) k h

module _ (m : ℕ) where
  abbrev IsSound : List Row → Type 0
  IsSound rows = IsKeyed rows × IsBounded m rows

  touched-IsSound :
      (now : ℕ) (touch : Touch) (row : Row) (rows : List Row)
      → IsSound rows
      → IsSound (touch_last_used now touch row rows)
  unfolding touch_router_api_key_last_used
  touched-IsSound now touch row rows h =
      let f = λ (r : Row). record r { last_used_at = some now } in
      touched IsSound now touch row rows h
        (update-IsKeyed f (λ r. refl) row.id rows h.0, touch-IsBounded m now row.id rows h.1)

  bill-IsSound :
      (fails : Bool) (row : Row) (tokens : ℕ) (rows : List Row)
      → tokens ≤ m
      → IsOpen row.id rows
      → IsSound rows
      → IsSound (bill_router_key fails (some row) tokens rows)
  unfolding bill_router_key add_router_key_token_usage
  bill-IsSound fails row tokens rows small left h =
      let f = λ (r : Row). record r { tokens_used = r.tokens_used + tokens } in
      let spent : IsSound
          (update_where row.id (λ r. record r { tokens_used = r.tokens_used + tokens }) rows) =
        (
          update-IsKeyed f (λ r. refl) row.id rows h.0,
          spend-IsBounded m row.id tokens rows small left h.1,
        ) in
      if_both IsSound (tokens == 0 || fails) h
        (if_both IsSound (row.id == 0 || tokens == 0) h spent)

  -- The bill of a key that was just found.
  charge-IsSound :
      (c : Call) (token : String) (row : Row) (rows : List Row)
      → verify_router_api_key c.now token rows ≡ some row
      → c.tokens ≤ m
      → IsSound rows
      → IsSound (
          bill_router_key c.bill_fails (some row) c.tokens (touch_last_used c.now c.touch row rows))
  unfolding touch_router_api_key_last_used
  charge-IsSound c token row rows found small h =
      let left = verify-IsOpen c.now token rows row h.0 found in
      let f = λ (r : Row). record r { last_used_at = some c.now } in
      bill-IsSound c.bill_fails row c.tokens (touch_last_used c.now c.touch row rows) small
        (touched (IsOpen row.id) c.now c.touch row rows left
          (update-IsOpen f (λ r. refl) (λ r. refl) row.id row.id rows left))
        (touched-IsSound c.now c.touch row rows h)

  check_key-IsSound :
      (c : Call) (token : String) (rows : List Row)
      → c.tokens ≤ m
      → IsSound rows
      → IsSound (billed c (check_key c.now c.touch token rows) rows)
  unfolding check_key
  check_key-IsSound c token rows small h =
      let found = verify_router_api_key c.now token rows in
      elim (Bool-cases (has_prefix token "rtr_")) [
        | inr other ↦ rw other h
        | inl ours ↦ elim (Option-cases found) [
          | inl missing ↦ rw (ours, missing) h
          | inr (row, e) ↦ rw (ours, e) (charge-IsSound c token row rows e small h)
        ]
      ]

  check_token-IsSound :
      (password : String) (c : Call) (token : String) (rows : List Row)
      → c.tokens ≤ m
      → IsSound rows
      → IsSound (billed c (check_token password c.now c.touch token rows) rows)
  unfolding check_token bill_router_key
  check_token-IsSound password c token rows small h =
      let k = check_key-IsSound c token rows small h in
      let P = λ (a : Checked). IsSound (billed c a rows) in
      if_both P (not (nonempty token)) h (
        if_both P (not (nonempty password)) k (elim (Option-cases (compare_digest token password)) [
          | inl e ↦ rw e h
          | inr (true, e) ↦ rw e h
          | inr (false, e) ↦ rw e k
        ]))

  serve-IsSound :
      (password : String) (c : Call) (rows : List Row)
      → c.request.router_key ≡ none
      → c.tokens ≤ m
      → IsSound rows
      → IsSound (serve password c rows)
  unfolding serve check_router_auth
  serve-IsSound password c rows outer small h =
      rw outer (check_token-IsSound password c (token_of c.request) rows small h)

  serve_all-IsSound :
      (password : String) (calls : List Call) (rows : List Row)
      → All (λ (c : Call). (c.request.router_key ≡ none) × (c.tokens ≤ m)) calls
      → IsSound rows
      → IsSound (serve_all password calls rows)
  unfolding serve_all
  serve_all-IsSound password [] rows small h = h
  serve_all-IsSound password (c ∷ calls) rows small h =
      serve_all-IsSound password calls (serve password c rows) small.1
        (serve-IsSound password c rows small.0.0 small.0.1 h)

-- A key with a quota is overdrawn by less than one request: over requests that are checked and billed
-- one after the other, whatever headers they carry and whatever fails, no key uses its quota and `m`
-- tokens up, if none had at first, every id is one row's, each request is billed at most `m` tokens and
-- none of them runs within another one.
pub serve_all-is_within :
    (m : ℕ) (password : String) (calls : List Call) (rows : List Row)
    → All (λ (c : Call). (c.request.router_key ≡ none) × (c.tokens ≤ m)) calls
    → IsKeyed rows
    → All (λ (r : Row). is_within m r ≡ true) rows
    → All (λ (r : Row). is_within m r ≡ true) (serve_all password calls rows)
serve_all-is_within m password calls rows small keyed h =
    (serve_all-IsSound m password calls rows small (keyed, h)).1
