-- ===== src/Access/Keys.antt =====
-- app/database.py: the callers' keys, as the rows of `router_api_keys`.
--
-- Statements are run one at a time. A row holds no NULL but for the two instants.
use custorouter.Common.{
  ℕ, ◌+◌, Bool, true, ◌&&◌, ◌||◌, Option, none, some, String, List, [], ◌∷◌, ltb, ◌==◌,
  if◌then◌else◌, str_eq, find, keep, not,
}

-- What a key may do, as the texts that its columns hold.
pub record Settings : Type 0 where
  pub allowed_models : String
  pub model_prompts : String
  pub model_aliases : String
  pub model_routes : String

pub record Row : Type 0 where
  pub id : ℕ
  pub key_value : String
  pub key_name : String
  pub last_used_at : Option ℕ
  pub is_active : Bool
  pub expires_at : Option ℕ
  pub token_quota : ℕ
  pub tokens_used : ℕ
  pub settings : Settings

-- `expires_at IS NULL OR expires_at > NOW()`
abbrev pub is_unexpired : ℕ → Option ℕ → Bool
is_unexpired now none = true
is_unexpired now (some at) = ltb now at

-- `token_quota = 0 OR tokens_used < token_quota`
abbrev pub has_quota : Row → Bool
has_quota r = r.token_quota == 0 || ltb r.tokens_used r.token_quota

abbrev pub is_usable : ℕ → String → Row → Bool
is_usable now key r =
    str_eq r.key_value key && r.is_active && is_unexpired now r.expires_at && has_quota r

unfoldable pub verify_router_api_key : ℕ → String → List Row → Option Row
verify_router_api_key now key rows = find (is_usable now key) rows

-- `UPDATE … WHERE id = …`
unfoldable pub update_where : ℕ → (Row → Row) → List Row → List Row
update_where id f [] = []
update_where id f (r ∷ rows) =
    let rest = update_where id f rows in if r.id == id then f r ∷ rest else r ∷ rest

unfoldable pub touch_router_api_key_last_used : ℕ → ℕ → List Row → List Row
unfolding update_where
touch_router_api_key_last_used now id rows =
    update_where id (λ r. record r { last_used_at = some now }) rows

unfoldable pub update_router_api_key :
    ℕ → String → Option ℕ → ℕ → Settings → Bool → List Row → List Row
unfolding update_where
update_router_api_key id name expires_at quota settings keep_expiry rows =
    update_where id
      (λ r. record r {
        key_name = name;
        expires_at = if keep_expiry then r.expires_at else expires_at;
        token_quota = quota;
        settings = settings;
      })
      rows

unfoldable pub reset_router_key_usage : ℕ → List Row → List Row
unfolding update_where
reset_router_key_usage id rows = update_where id (λ r. record r { tokens_used = 0 }) rows

unfoldable pub add_router_key_token_usage : ℕ → ℕ → List Row → List Row
unfolding update_where
add_router_key_token_usage id tokens rows =
    if id == 0 || tokens == 0
    then rows
    else update_where id (λ r. record r { tokens_used = r.tokens_used + tokens }) rows

unfoldable pub delete_router_api_key : ℕ → List Row → List Row
delete_router_api_key id rows = keep (λ r. not (r.id == id)) rows
