-- ===== src/Access/Login.antt =====
-- app/routers/admin.py: `api_login`, `api_logout` and `require_auth`.
--
-- Redis, `json.loads`, bcrypt and the random token are parameters.
pub mod Laws
pub mod Limit
pub mod Sessions
mod Tests
use custorouter.Common.{
  ℕ, ◌+◌, Bool, true, false, not, ◌&&◌, ◌||◌, Option, none, some, String, List, [], ◌∷◌, ◌++◌, ltb,
  if◌then◌else◌, str_eq, text_length, length, ◌⊎◌, inl, inr,
}
use custorouter.Common.Json.{Json, Fields}
use custorouter.Access.Store.{
  Redis, Fault, Limits, create_session, validate_session, revoke_session, consume_login_attempt,
  clear_login_attempts,
}

-- The status and the message of an answer, with the cookie that it sets, and the passwords that
-- `verify_admin_password` was called with on the way to it.
pub record Answer : Type 0 where
  pub status_code : ℕ
  pub message : String
  pub cookie : Option String
  pub verified : List String

unfoldable pub refuse : ℕ → String → Answer
refuse status message = record {
  status_code = status;
  message = message;
  cookie = none;
  verified = [];
}

unfoldable pub unavailable : Answer
unfolding refuse
unavailable = refuse 503 "Authentication service temporarily unavailable."

unfoldable pub invalid : ℕ → Answer
unfolding refuse
invalid status = refuse status "Invalid credentials"

-- A request to log in: the chunks of its body, how its calls of Redis go, and the token that
-- `secrets.token_urlsafe` would give it.
pub record Login : Type 0 where
  pub ip : String
  pub body : List (List ℕ)
  pub consume_fault : Fault
  pub clear_fault : Fault
  pub create_fault : Fault
  pub token : String

abbrev max_body : ℕ
max_body = 4096

-- The body, unless it grows beyond 4096 bytes.
unfoldable pub read_body : List ℕ → List (List ℕ) → Option (List ℕ)
read_body raw [] = some raw
read_body raw (chunk ∷ chunks) = elim (ltb max_body (length (raw ++ chunk))) [
  | true ↦ none
  | false ↦ read_body (raw ++ chunk) chunks
]

-- `payload.get(name, "")`, a decoded dict having each key once
unfoldable pub get_or_empty : String → Fields → Json
get_or_empty name Fields.end = Json.string ""
get_or_empty name (Fields.field k v rest) = if str_eq k name then v else get_or_empty name rest

-- The two texts, if they are texts within their bounds.
unfoldable pub credentials : Json → Json → Option (String × String)
credentials (Json.string username) (Json.string password) =
    if ltb 100 (text_length username) || ltb 1024 (text_length password)
    then none
    else some (username, password)
credentials _ _ = none

unfoldable pub read_payload : Option Json → Option (String × String)
unfolding credentials get_or_empty
read_payload (some (Json.object fields)) =
    credentials (get_or_empty "username" fields) (get_or_empty "password" fields)
read_payload _ = none

-- What a parsed body asks for, or the refusal.
unfoldable pub read_login : (List ℕ → Option Json) → List (List ℕ) → Answer ⊎ (String × String)
unfolding refuse invalid read_body read_payload
read_login loads body = elim (read_body [] body) [
  | none ↦ inl (refuse 413 "Request too large")
  | some raw ↦ elim (read_payload (loads raw)) [ none ↦ inl (invalid 400) | some who ↦ inr who ]
]

-- `ADMIN_USERNAME`, and bcrypt's answer for a password: none is a ValueError.
pub record Admin : Type 0 where
  pub username : String
  pub verify : String → Option Bool

unfoldable pub is_right : Admin → String × String → Bool
is_right admin (username, password) =
    str_eq username admin.username
    && elim (admin.verify password) [ none ↦ false | some answer ↦ answer ]

-- The call of `verify_admin_password`, whatever it answers.
unfoldable pub with_verified {ℓ} : {W : Type ℓ} → String → Answer × W → Answer × W
with_verified password (answer, w) = (record answer { verified = password ∷ [] }, w)

module _ {ℓ} {W : Type ℓ} (redis : Redis W) (prefix : String) (digest : String → String)
    (ttl : ℕ) where
  unfoldable pub grant : Login → W → Answer × W
  unfolding unavailable clear_login_attempts create_session
  grant r w =
      let (answer, v) = clear_login_attempts redis prefix digest r.clear_fault r.ip w in
      elim answer [
        | none ↦ (unavailable, v)
        | some done ↦
            let (made, u) = create_session redis prefix digest r.create_fault r.token ttl v in
            elim made [
              | none ↦ (unavailable, u)
              | some yes_made ↦ (
                record { status_code = 200; message = ""; cookie = some r.token; verified = [] },
                u,
              )
            ]
      ]

  unfoldable pub check_login : Admin → (List ℕ → Option Json) → Login → W → Answer × W
  unfolding invalid read_login is_right grant with_verified
  check_login admin loads r w = elim (read_login loads r.body) [
    | inl refusal ↦ (refusal, w)
    | inr who ↦
        with_verified who.1
          (elim (is_right admin who) [ true ↦ grant r w | false ↦ (invalid 401, w) ])
  ]

  unfoldable pub api_login : Limits → Admin → (List ℕ → Option Json) → Login → W → Answer × W
  unfolding refuse unavailable check_login consume_login_attempt
  api_login limits admin loads r w =
      let (answer, v) = consume_login_attempt redis prefix digest r.consume_fault limits r.ip w in
      elim answer [
        | none ↦ (unavailable, v)
        | some false ↦ (refuse 429 "Too many login attempts. Try again later.", v)
        | some true ↦ check_login admin loads r v
      ]

  -- The cookie is emptied, unless Redis fails.
  unfoldable pub api_logout : Fault → Option String → W → Answer × W
  unfolding unavailable revoke_session
  api_logout fault token w =
      let (answer, v) = revoke_session redis prefix digest fault token w in
      elim answer [
        | none ↦ (unavailable, v)
        | some done ↦
            (record { status_code = 200; message = ""; cookie = some ""; verified = [] }, v)
      ]

  -- None lets the request through.
  unfoldable pub require_auth : Fault → Option String → W → Option Answer × W
  unfolding refuse unavailable validate_session
  require_auth fault token w =
      let (answer, v) = validate_session redis prefix digest fault token ttl w in
      elim answer [
        | none ↦ (some (refuse 503 "Authentication service temporarily unavailable"), v)
        | some false ↦ (some (refuse 401 "Not authenticated"), v)
        | some true ↦ (none, v)
      ]
