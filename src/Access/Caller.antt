-- ===== src/Access/Caller.antt =====
-- app/routers/proxy.py: `_check_router_auth`, and `_bill_router_key`; app/redis_store.py:
-- `claim_router_key_last_used_touch`.
pub mod Laws
pub mod Quota
mod Tests
use custorouter.Common.{
  ℕ, Bool, true, false, not, ◌&&◌, ◌||◌, Option, none, some, String, List, ltb, ◌==◌, if◌then◌else◌,
  str_eq, nonempty, has_prefix, drop_text,
}
use Prim.Native.Char.{code}
use Prim.Native.String
use custorouter.Access.Keys.{
  Row, verify_router_api_key, touch_router_api_key_last_used, add_router_key_token_usage,
}

-- What the check reads of a request: the row that an outer request has left, and two headers.
pub record Request : Type 0 where
  pub router_key : Option Row
  pub authorization : Option String
  pub x_api_key : Option String

-- What Redis says about the key's last use, an error being none, and whether Postgres fails then.
pub record Touch : Type 0 where
  pub created : Option Bool
  pub fails : Bool

-- TypeError, or the answer with the row of the request and the table.
pub data Checked : Type 0 where
  type_error : Checked
  answered : Bool → Option Row → List Row → Checked

-- No token is the empty text, which is treated alike.
unfoldable pub token_of : Request → String
token_of request =
    let other : String = elim request.x_api_key [ none ↦ "" | some key ↦ key ] in
    elim request.authorization [
      | none ↦ other
      | some header ↦ if has_prefix header "Bearer " then drop_text 7 header else other
    ]

abbrev pub is_ascii : String → Bool
is_ascii String.[] = true
is_ascii (String.◌∷◌ c s) = ltb (code c) 128 && is_ascii s

-- `hmac.compare_digest`, which takes no text beyond ASCII
unfoldable pub compare_digest : String → String → Option Bool
compare_digest a b = if is_ascii a && is_ascii b then some (str_eq a b) else none

-- An error of Redis counts as a claim.
unfoldable pub claim_router_key_last_used_touch : Option Bool → Bool
claim_router_key_last_used_touch none = true
claim_router_key_last_used_touch (some created) = created

unfoldable pub touch_last_used : ℕ → Touch → Row → List Row → List Row
unfolding claim_router_key_last_used_touch touch_router_api_key_last_used
touch_last_used now touch row rows =
    if claim_router_key_last_used_touch touch.created && not touch.fails
    then touch_router_api_key_last_used now row.id rows
    else rows

-- The lookup of a key by its token.
unfoldable pub check_key : ℕ → Touch → String → List Row → Checked
unfolding verify_router_api_key touch_last_used
check_key now touch token rows =
    if has_prefix token "rtr_"
    then elim (verify_router_api_key now token rows) [
      | none ↦ answered false none rows
      | some row ↦ answered true (some row) (touch_last_used now touch row rows)
    ]
    else answered false none rows

unfoldable pub check_token : String → ℕ → Touch → String → List Row → Checked
unfolding compare_digest check_key
check_token password now touch token rows =
    if not (nonempty token)
    then answered false none rows
    else if not (nonempty password)
    then check_key now touch token rows
    else elim (compare_digest token password) [
      | none ↦ type_error
      | some true ↦ answered true none rows
      | some false ↦ check_key now touch token rows
    ]

-- `password` is ROUTER_PASSWORD, empty where it is not set.
unfoldable pub check_router_auth : String → ℕ → Touch → Request → List Row → Checked
unfolding token_of check_token
check_router_auth password now touch request rows = elim request.router_key [
  | some row ↦ answered true (some row) rows
  | none ↦ check_token password now touch (token_of request) rows
]

-- `fails` is an error of Postgres, which is printed.
unfoldable pub bill_router_key : Bool → Option Row → ℕ → List Row → List Row
unfolding add_router_key_token_usage
bill_router_key fails none tokens rows = rows
bill_router_key fails (some row) tokens rows =
    if tokens == 0 || fails then rows else add_router_key_token_usage row.id tokens rows
