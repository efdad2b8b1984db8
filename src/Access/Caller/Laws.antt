-- ===== src/Access/Caller/Laws.antt =====
-- Whom `_check_router_auth` lets in (app/routers/proxy.py), and what the console's changes of a key
-- mean to its caller (app/database.py).
use custorouter.Common.{
  ℕ, zero, suc, ◌≡◌, ◌≢◌, refl, Bool, true, false, ◌&&◌, Option, none, some, String, List, [], ◌∷◌,
  if◌then◌else◌, str_eq, find, arith, Bool-cases, inl, inr, Option-cases, subst, get_elem?,
  nonempty, ne_of_str_eq, text_empty, has_prefix, eq_iff, ◌==◌,
}
use custorouter.Access.Keys.{
  Row, Settings, has_quota, is_usable, is_unexpired, verify_router_api_key, update_router_api_key,
  update_where,
}
use custorouter.Access.Caller.{
  Request, Touch, Checked, token_of, check_router_auth, check_token, check_key, touch_last_used,
  compare_digest, is_ascii,
}

find_lem {ℓ} :
    {A : Type ℓ} (p : A → Bool) (xs : List A) {x : A}
    → find p xs ≡ some x
    → (i : ℕ) × (get_elem? xs i ≡ some x) × (p x ≡ true)
find_lem p [] e = cc
find_lem p (y ∷ xs) {x} e = elim (Bool-cases (p y)) [
  | inl here ↦ let same : y ≡ x = ground arith in (0, ground arith, ground arith)
  | inr there ↦ let (i, at, h) = find_lem p xs (ground arith) in (suc i, at, h)
]

-- A row of the table that carries the token and may be used now.
pub record IsKeyOf (now : ℕ) (token : String) (rows : List Row) (row : Row) : Type 0 where
  pub position : ℕ
  pub is_listed : get_elem? rows position ≡ some row
  pub is_named : row.key_value ≡ token
  pub is_enabled : row.is_active ≡ true
  pub is_current : is_unexpired now row.expires_at ≡ true
  pub is_left : has_quota row ≡ true
  pub has_mark : has_prefix token "rtr_" ≡ true

verify-IsKeyOf :
    (now : ℕ) (token : String) (rows : List Row) (row : Row)
    → has_prefix token "rtr_" ≡ true
    → verify_router_api_key now token rows ≡ some row
    → IsKeyOf now token rows row
unfolding verify_router_api_key
verify-IsKeyOf now token rows row mark e =
    let (i, at, h) = find_lem (is_usable now token) rows e in
    let name = eq_iff row.key_value token in
    record {
      position = i;
      is_listed = at;
      is_named = ground arith;
      is_enabled = ground arith;
      is_current = ground arith;
      is_left = ground arith;
      has_mark = mark;
    }

-- Why a token leads to an answer.
pub data Reason (now : ℕ) (password token : String) (rows : List Row) : Checked → Type 0 where
  -- A token or a password beyond ASCII, which cannot be compared.
  unreadable :
      nonempty password ≡ true
      → is_ascii token && is_ascii password ≡ false
      → Reason now password token rows Checked.type_error
  by_password :
      nonempty token ≡ true
      → token ≡ password
      → Reason now password token rows (Checked.answered true none rows)
  by_key :
      (row : Row) (left : List Row)
      → IsKeyOf now token rows row
      → Reason now password token rows (Checked.answered true (some row) left)
  unknown :
      token ≢ password
      → verify_router_api_key now token rows ≡ none
      → Reason now password token rows (Checked.answered false none rows)
  unmarked :
      token ≢ password
      → has_prefix token "rtr_" ≡ false
      → Reason now password token rows (Checked.answered false none rows)
  no_token : token ≡ "" → Reason now password token rows (Checked.answered false none rows)

check_key-Reason :
    (password : String) (now : ℕ) (touch : Touch) (token : String) (rows : List Row)
    → token ≢ password
    → Reason now password token rows (check_key now touch token rows)
unfolding check_key
check_key-Reason password now touch token rows differs =
    elim (Bool-cases (has_prefix token "rtr_")) [
      | inr other ↦ rw other (Reason.unmarked differs other)
      | inl ours ↦ elim (Option-cases (verify_router_api_key now token rows)) [
        | inl missing ↦ rw (ours, missing) (Reason.unknown differs missing)
        | inr (row, e) ↦
            rw (ours, e)
              (Reason.by_key row (touch_last_used now touch row rows)
                (verify-IsKeyOf now token rows row ours e))
      ]
    ]

-- The check of a request that is not made within another one, by its token: a request gets in by the
-- router's password, or by the secret of a key in the table that is active, not expired and not used
-- up, whose row it then carries. It is refused, and the table stays as it was, if it has no token,
-- or if its token is not the password and is either not marked as a key or the secret of no such
-- key. The check raises TypeError, and the table stays as it was, only if a password is set and the
-- token or the password is not ASCII.
pub check_router_auth-Reason :
    (password : String) (now : ℕ) (touch : Touch) (request : Request) (rows : List Row)
    → request.router_key ≡ none
    → Reason now password
        (token_of request)
        rows
        (check_router_auth password now touch request rows)
unfolding check_router_auth check_token compare_digest
check_router_auth-Reason password now touch request rows outer =
    let token = token_of request in
    let key = check_key-Reason password now touch token rows in
    rw outer (elim (Bool-cases (nonempty token)) [
      | inr bare ↦ rw bare (Reason.no_token (text_empty token bare))
      | inl some_token ↦ elim (Bool-cases (nonempty password)) [
        | inr open_gate ↦ rw (some_token, open_gate) (key (λ e. ground arith))
        | inl guarded ↦ elim (Bool-cases (is_ascii token && is_ascii password)) [
          | inr beyond ↦ rw (some_token, guarded, beyond) (Reason.unreadable guarded beyond)
          | inl plain ↦ elim (Bool-cases (str_eq token password)) [
            | inl same ↦
                rw (some_token, guarded, plain, same)
                  (Reason.by_password some_token ((eq_iff token password).0 same))
            | inr differs ↦ rw (some_token, guarded, plain, differs) (key (ne_of_str_eq differs))
          ]
        ]
      ]
    ])

abbrev pub key_in : Checked → Option Row
key_in Checked.type_error = none
key_in (Checked.answered allowed key left) = key

IsKeyOf-Reason :
    {now : ℕ} {password token : String} {rows : List Row} {row : Row} (checked : Checked)
    → Reason now password token rows checked
    → key_in checked ≡ some row
    → IsKeyOf now token rows row
IsKeyOf-Reason _ (Reason.unreadable h k) e = cc
IsKeyOf-Reason _ (Reason.by_password h k) e = cc
IsKeyOf-Reason {now} {password} {token} {rows} {row} _ (Reason.by_key found left h) e =
    let same : found ≡ row = cc in subst (IsKeyOf now token rows) same h
IsKeyOf-Reason _ (Reason.unknown h k) e = cc
IsKeyOf-Reason _ (Reason.unmarked h k) e = cc
IsKeyOf-Reason _ (Reason.no_token h) e = cc

-- What a change of settings makes of a row.
abbrev pub changed : ℕ → String → Option ℕ → ℕ → Settings → Bool → Row → Row
changed id name expires_at quota settings keep_expiry r =
    if r.id == id
    then record r {
      key_name = name;
      expires_at = if keep_expiry then r.expires_at else expires_at;
      token_quota = quota;
      settings = settings;
    }
    else r

get_elem?-update :
    (id : ℕ) (f : Row → Row) (rows : List Row) (i : ℕ) {row : Row}
    → get_elem? (update_where id f rows) i ≡ some row
    → (old : Row) × (get_elem? rows i ≡ some old) × (row ≡ (if old.id == id then f old else old))
unfolding update_where
get_elem?-update id f [] i e = cc
get_elem?-update id f (r ∷ rows) zero e = (r, refl, ground arith)
get_elem?-update id f (r ∷ rows) (suc i) {row} e = elim (Bool-cases (r.id == id)) [
  | inl here ↦ get_elem?-update id f rows i (ground arith)
  | inr there ↦ get_elem?-update id f rows i (ground arith)
]

-- New settings hold from the next request on, and the secret stays: a request that is let in with a
-- key after a change carries the row as the change left it, and the row that was changed had the
-- request's token as its secret already, was active and had used as many tokens.
pub check_router_auth-update :
    (password : String) (now : ℕ) (touch : Touch) (request : Request) (id : ℕ) (name : String)
    (expires_at : Option ℕ) (quota : ℕ) (settings : Settings) (keep_expiry : Bool) (rows : List Row)
    (row : Row)
    → request.router_key ≡ none
    → key_in (
        check_router_auth password now touch request
          (update_router_api_key id name expires_at quota settings keep_expiry rows))
      ≡ some row
    → (i : ℕ) × (old : Row) × (get_elem? rows i ≡ some old)
      × (row ≡ changed id name expires_at quota settings keep_expiry old)
      × (old.key_value ≡ token_of request)
      × (old.is_active ≡ true)
      × (old.tokens_used ≡ row.tokens_used)
unfolding update_router_api_key
check_router_auth-update password now touch request id name expires_at quota settings keep_expiry
      rows row outer e =
    let after = update_router_api_key id name expires_at quota settings keep_expiry rows in
    let found =
      IsKeyOf-Reason (check_router_auth password now touch request after)
        (check_router_auth-Reason password now touch request after outer) e in
    let (old, at, same) =
      get_elem?-update id
        (λ r. record r {
          key_name = name;
          expires_at = if keep_expiry then r.expires_at else expires_at;
          token_quota = quota;
          settings = settings;
        })
        rows found.position found.is_listed in
    let name_kept = found.is_named in
    let enabled = found.is_enabled in
    (found.position, old, at, same, ground arith, ground arith, ground arith)
