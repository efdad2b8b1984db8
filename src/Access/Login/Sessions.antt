-- ===== src/Access/Login/Sessions.antt =====
-- Who gets a session at `api_login`, and what a session is good for (app/routers/admin.py).
use custorouter.Common.{
  ℕ, ◌<◌, ◌≡◌, refl, ◌∙◌, Bool, true, false, Option, none, some, String, List, arith, eq_refl, ◌&&◌,
  inl, nonempty, text_length, is_some, not, ltb,
}
use custorouter.Common.Json.{Json}
use custorouter.Access.Store.{
  Redis, Fault, Limits, call, ip_key, global_key, session_key, consume_login_attempt,
  clear_login_attempts, create_session, validate_session, touch_session, revoke_session,
}
use custorouter.Access.Store.Laws.{
  IsRedis, IsFramed, apart_sym, ip_key-session_key, session_key-global_key,
}
use custorouter.Access.Store.Counts.{consume-other, consume-framed}
use custorouter.Access.Login.{
  Login, Admin, Answer, grant, check_login, with_verified, api_login, api_logout, require_auth,
  refuse, invalid, unavailable, read_login, is_right,
}
use custorouter.Access.Login.Laws.{is_owner}
use custorouter.Access.Login.Limit.{is_tried}

abbrev pub is_fine : Fault → Bool
is_fine Fault.fine = true
is_fine _ = false

-- A token that `validate_session` looks up.
abbrev pub is_token : String → Bool
is_token token = nonempty token && not (ltb 128 (text_length token))

module _ {ℓ} {W : Type ℓ} (redis : Redis W) (get : String → W → Option ℕ) (laws : IsRedis redis get)
    (prefix : String) (digest : String → String) (ttl : ℕ) (ttl_pos : 0 < ttl) (limits : Limits)
    (ip_pos : 0 < limits.per_ip_window) (global_pos : 0 < limits.global_window) (admin : Admin)
    (loads : List ℕ → Option Json) where
  read_login-cookie :
      (body : List (List ℕ))
      → (refusal : Answer) → read_login loads body ≡ inl refusal
      → refusal.cookie ≡ none
  unfolding read_login refuse invalid
  read_login-cookie body refusal e = ground arith

  check_login-stranger :
      (r : Login) (w : W)
      → is_owner admin loads r ≡ false
      → ((check_login redis prefix digest ttl admin loads r w).0.cookie ≡ none)
        × ((check_login redis prefix digest ttl admin loads r w).1 ≡ w)
  unfolding check_login invalid refuse with_verified is_right
  check_login-stranger r w h = ground (arith, read_login-cookie r.body)

  -- A request with a wrong name or password, or one that the limiter does not let through, gets no
  -- cookie, and no session of anybody is made, ended or prolonged by it: every session key keeps its
  -- value and its deadline.
  pub api_login-stranger :
      (deadline : String → W → Option ℕ)
      → IsFramed redis deadline
      → (r : Login) (w : W)
      → is_tried redis prefix digest ttl limits admin loads r w && is_owner admin loads r ≡ false
      → ((api_login redis prefix digest ttl limits admin loads r w).0.cookie ≡ none)
        × ((token : String)
            → (get
                  (session_key prefix digest token)
                  ((api_login redis prefix digest ttl limits admin loads r w).1)
                ≡ get (session_key prefix digest token) w)
              × (deadline
                    (session_key prefix digest token)
                    ((api_login redis prefix digest ttl limits admin loads r w).1)
                  ≡ deadline (session_key prefix digest token) w))
  unfolding api_login unavailable refuse
  api_login-stranger deadline framed r w h =
      let v = (consume_login_attempt redis prefix digest r.consume_fault limits r.ip w).1 in
      let s = check_login-stranger r v in
      (
        ground arith,
        λ token.
            let j = session_key prefix digest token in
            let ip_apart = ip_key-session_key prefix digest r.ip token in
            let global_apart =
              apart_sym j (global_key prefix digest) (session_key-global_key prefix digest token) in
            let kept =
              consume-other redis get laws prefix digest limits ip_pos global_pos r.consume_fault j
                r.ip w ip_apart global_apart in
            let held =
              consume-framed redis deadline framed prefix digest limits r.consume_fault j r.ip w
                ip_apart global_apart in
            (ground arith, ground arith),
      )

  grant_lem :
      (r : Login) (w : W)
      → is_fine r.clear_fault && is_fine r.create_fault ≡ true
      → ((grant redis prefix digest ttl r w).0.cookie ≡ some r.token)
        × (get (session_key prefix digest r.token) ((grant redis prefix digest ttl r w).1) ≡ some 1)
  unfolding grant clear_login_attempts create_session call
  grant_lem r w h =
      let j = session_key prefix digest r.token in
      let same = eq_refl j in
      let e = laws.get-set_ex j j 1 ttl (redis.delete (ip_key prefix digest r.ip) w) ttl_pos in
      ground arith

  api_login-owner :
      (r : Login) (w : W)
      → is_tried redis prefix digest ttl limits admin loads r w ≡ true
      → is_owner admin loads r ≡ true
      → let granted =
          grant redis prefix digest ttl r
            ((consume_login_attempt redis prefix digest r.consume_fault limits r.ip w).1) in
        ((api_login redis prefix digest ttl limits admin loads r w).0.cookie ≡ granted.0.cookie)
        × ((api_login redis prefix digest ttl limits admin loads r w).1 ≡ granted.1)
  unfolding api_login check_login with_verified is_right
  api_login-owner r w h k = (ground arith, ground arith)

  -- A request is let through to the console only if Redis answers and holds a live session for its
  -- token: it fails closed.
  pub require_auth-session :
      (fault : Fault) (token : String) (w : W)
      → (require_auth redis prefix digest ttl fault (some token) w).0 ≡ none
      → (fault ≡ Fault.fine)
        × (is_token token ≡ true)
        × (is_some (get (session_key prefix digest token) w) ≡ true)
  unfolding require_auth validate_session touch_session call refuse
  require_auth-session Fault.fine token w h =
      let e = laws.exists_lem (session_key prefix digest token) w in
      (refl, ground arith, ground arith)
  require_auth-session Fault.unsent token w h = absurd (ground arith)
  require_auth-session Fault.unanswered token w h = absurd (ground arith)

  require_auth-live :
      (token : String) (w : W)
      → is_token token ≡ true
      → get (session_key prefix digest token) w ≡ some 1
      → (require_auth redis prefix digest ttl Fault.fine (some token) w).0 ≡ none
  unfolding require_auth validate_session touch_session call
  require_auth-live token w h k =
      let e = laws.exists_lem (session_key prefix digest token) w in ground arith

  require_auth-logout :
      (token : String) (w : W)
      → is_token token ≡ true
      → (require_auth redis prefix digest ttl Fault.fine
          (some token)
          ((api_logout redis prefix digest ttl Fault.fine (some token) w).1)).0
        ≡ some (refuse 401 "Not authenticated")
  unfolding require_auth validate_session touch_session call api_logout revoke_session
  require_auth-logout token w h =
      let k = session_key prefix digest token in
      let v = redis.delete k w in
      let e = laws.exists_lem k v in
      let f = laws.get-delete k k w in let same = eq_refl k in ground arith

  -- A request that the limiter lets through, with the administrator's name and password and no call
  -- of Redis failing, gets a cookie. Its token, of 1 to 128 characters, opens the console right
  -- after it, and right after its logout, whenever that comes, the console answers 401.
  pub api_login-require_auth :
      (r : Login) (w x : W)
      → is_tried redis prefix digest ttl limits admin loads r w ≡ true
      → is_owner admin loads r ≡ true
      → is_fine r.clear_fault && is_fine r.create_fault ≡ true
      → is_token r.token ≡ true
      → ((api_login redis prefix digest ttl limits admin loads r w).0.cookie ≡ some r.token)
        × ((require_auth redis prefix digest ttl Fault.fine
              (some r.token)
              ((api_login redis prefix digest ttl limits admin loads r w).1)).0
            ≡ none)
        × ((require_auth redis prefix digest ttl Fault.fine
              (some r.token)
              ((api_logout redis prefix digest ttl Fault.fine (some r.token) x).1)).0
            ≡ some (refuse 401 "Not authenticated"))
  api_login-require_auth r w x tried owner fine fits =
      let v = (consume_login_attempt redis prefix digest r.consume_fault limits r.ip w).1 in
      let (cookie, live) = grant_lem r v fine in
      let (same, after) = api_login-owner r w tried owner in
      (
        same ∙ cookie,
        rw after (require_auth-live r.token ((grant redis prefix digest ttl r v).1) fits live),
        require_auth-logout r.token x fits,
      )
