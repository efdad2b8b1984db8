-- ===== src/Access/Login/Laws.antt =====
-- What a request to log in leaves of the limiter's counts and of the sessions (app/routers/admin.py).
use custorouter.Common.{
  if◌then◌else◌, some, ◌&&◌, str_eq, length, [], ◌≤◌, ℕ, ◌<◌, ◌≡◌, refl, Bool, true, false, Option,
  String, List, arith, str_eq, inl, inr,
}
use custorouter.Common.Json.{Json}
use custorouter.Access.Store.{
  Redis, Fault, Limits, call, session_key, ip_key, consume_login_attempt, clear_login_attempts,
  create_session,
}
use custorouter.Access.Store.Counts.{is_admitted}
use custorouter.Access.Store.Laws.{IsRedis}
use custorouter.Access.Login.{
  Answer, refuse, unavailable, invalid, with_verified, Login, Admin, read_login, is_right, grant,
  check_login, api_login,
}

-- What bcrypt answers for the right password.
abbrev is_yes : Option Bool → Bool
is_yes (some true) = true
is_yes _ = false

-- Whether the body carries the administrator's name and password.
abbrev pub is_owner : Admin → (List ℕ → Option Json) → Login → Bool
is_owner admin loads r = elim (read_login loads r.body) [
  | inl refusal ↦ false
  | inr who ↦ str_eq who.0 admin.username && is_yes (admin.verify who.1)
]

module _ {ℓ} {W : Type ℓ} (redis : Redis W) (get : String → W → Option ℕ) (laws : IsRedis redis get)
    (prefix : String) (digest : String → String) (ttl : ℕ) (ttl_pos : 0 < ttl) where
  get-clear :
      (fault : Fault) (j ip : String) (w : W)
      → str_eq (ip_key prefix digest ip) j ≡ false
      → get j ((clear_login_attempts redis prefix digest fault ip w).1) ≡ get j w
  unfolding clear_login_attempts call
  get-clear Fault.fine j ip w h =
      let e = laws.get-delete j (ip_key prefix digest ip) w in ground arith
  get-clear Fault.unsent j ip w h = refl
  get-clear Fault.unanswered j ip w h =
      let e = laws.get-delete j (ip_key prefix digest ip) w in ground arith

  get-create :
      (fault : Fault) (j token : String) (w : W)
      → str_eq (session_key prefix digest token) j ≡ false
      → get j ((create_session redis prefix digest fault token ttl w).1) ≡ get j w
  unfolding create_session call
  get-create Fault.fine j token w h =
      let e = laws.get-set_ex j (session_key prefix digest token) 1 ttl w ttl_pos in ground arith
  get-create Fault.unsent j token w h = refl
  get-create Fault.unanswered j token w h =
      let e = laws.get-set_ex j (session_key prefix digest token) 1 ttl w ttl_pos in ground arith

  -- A login that is granted touches the count of its address and its own session alone.
  get-grant :
      (j : String) (r : Login) (w : W)
      → str_eq (ip_key prefix digest r.ip) j ≡ false
      → str_eq (session_key prefix digest r.token) j ≡ false
      → get j ((grant redis prefix digest ttl r w).1) ≡ get j w
  unfolding grant
  get-grant j r w h k =
      let v = (clear_login_attempts redis prefix digest r.clear_fault r.ip w).1 in
      let e = get-clear r.clear_fault j r.ip w h in
      let f = get-create r.create_fault j r.token v k in ground arith

  get-check_login :
      (admin : Admin) (loads : List ℕ → Option Json) (j : String) (r : Login) (w : W)
      → (is_owner admin loads r ≡ true
          → (str_eq (ip_key prefix digest r.ip) j ≡ false)
            × (str_eq (session_key prefix digest r.token) j ≡ false))
      → get j ((check_login redis prefix digest ttl admin loads r w).1) ≡ get j w
  unfolding check_login with_verified is_right
  get-check_login admin loads j r w h = let e = get-grant j r w in ground arith

  pub get-api_login :
      (limits : Limits) (admin : Admin) (loads : List ℕ → Option Json) (j : String) (r : Login)
      (w : W)
      → (is_owner admin loads r ≡ true
          → (str_eq (ip_key prefix digest r.ip) j ≡ false)
            × (str_eq (session_key prefix digest r.token) j ≡ false))
      → get j ((api_login redis prefix digest ttl limits admin loads r w).1)
        ≡ get j ((consume_login_attempt redis prefix digest r.consume_fault limits r.ip w).1)
  unfolding api_login
  get-api_login limits admin loads j r w h =
      let v = (consume_login_attempt redis prefix digest r.consume_fault limits r.ip w).1 in
      let e = get-check_login admin loads j r v h in ground arith

-- The password is looked at once at most, and only if the limiter lets the request through.
module _ {ℓ} {W : Type ℓ} (redis : Redis W) (prefix : String) (digest : String → String) (ttl : ℕ)
    (limits : Limits) (admin : Admin) (loads : List ℕ → Option Json) where
  read_login-verified :
      (body : List (List ℕ)) (refusal : Answer)
      → read_login loads body ≡ inl refusal
      → refusal.verified ≡ []
  unfolding read_login refuse invalid
  read_login-verified body refusal e = ground arith

  check_login-verified :
      (r : Login) (w : W)
      → length (check_login redis prefix digest ttl admin loads r w).0.verified ≤ 1
  unfolding check_login with_verified
  check_login-verified r w = ground (arith, read_login-verified r.body)

  pub api_login-verified :
      (r : Login) (w : W)
      → length (api_login redis prefix digest ttl limits admin loads r w).0.verified ≤ (
          if is_admitted (consume_login_attempt redis prefix digest r.consume_fault limits r.ip w).0
          then 1
          else 0)
  unfolding api_login unavailable refuse
  api_login-verified r w =
      let v = (consume_login_attempt redis prefix digest r.consume_fault limits r.ip w).1 in
      let e = check_login-verified r v in ground arith
