-- ===== src/Access/Login/Limit.antt =====
-- How many passwords can be tried at `api_login` (app/routers/admin.py).
use custorouter.Common.{
  length, ℕ, ◌+◌, ◌-◌, ◌<◌, ◌≤◌, ◌≡◌, ap, subst, Bool, true, false, Option, String, List, [], ◌∷◌,
  arith, or_else, if◌then◌else◌, str_eq, eq_iff, All, Bool-cases, inl, inr,
}
use custorouter.Common.Json.{Json}
use custorouter.Access.Store.{Redis, Limits, ip_key, global_key, session_key, consume_login_attempt}
use custorouter.Access.Store.Laws.{
  IsRedis, apart_sym, ip_key-global_key, ip_key-session_key, ip_key_lem, session_key-global_key,
}
use custorouter.Access.Store.Counts.{
  number, is_admitted, IsCounted, consume-global, consume-ip, consume-other,
}
use custorouter.Access.Login.{Login, Admin, api_login}
use custorouter.Access.Login.Laws.{is_owner, get-api_login, api_login-verified}

-- A request, and what happens in the world in front of it.
pub record Visit {ℓ} (W : Type ℓ) : Type ℓ where
  pub before : W → W
  pub login : Login

-- Nothing in front of the request takes the number of a key back, as its expiry would.
abbrev pub IsQuiet {ℓ} : {W : Type ℓ} → (W → ℕ) → Visit W → Type ℓ
IsQuiet {W = W} at visit = (w : W) → at w ≤ at (visit.before w)

module _ {ℓ} {W : Type ℓ} (redis : Redis W) (prefix : String) (digest : String → String) (ttl : ℕ)
    (limits : Limits) (admin : Admin) (loads : List ℕ → Option Json) where
  -- Whether the limiter lets the request through to the password.
  abbrev pub is_tried : Login → W → Bool
  is_tried r w =
      is_admitted (consume_login_attempt redis prefix digest r.consume_fault limits r.ip w).0

  -- How many passwords a request has looked at.
  abbrev looks : Login → W → ℕ
  looks r w = length (api_login redis prefix digest ttl limits admin loads r w).0.verified

  -- How many passwords are looked at in the requests that `mine` is about.
  abbrev pub tries : (Login → Bool) → List (Visit W) → W → ℕ
  tries mine [] w = 0
  tries mine (visit ∷ visits) w =
      let r = visit.login in
      let v = visit.before w in
      (if mine r then looks r v else 0)
      + tries mine visits (api_login redis prefix digest ttl limits admin loads r v).1

  -- One request counts the passwords that it looks at.
  abbrev IsLimited : (Login → Bool) → (W → ℕ) → ℕ → Login → Type ℓ
  IsLimited mine at limit r =
      (w : W)
      → (at w + (if mine r then looks r w else 0)
          ≤ at ((api_login redis prefix digest ttl limits admin loads r w).1))
        × (0 < (if mine r then looks r w else 0)
            → at ((api_login redis prefix digest ttl limits admin loads r w).1) ≤ limit)

  tries_bound :
      (mine : Login → Bool) (at : W → ℕ) (limit : ℕ) (visits : List (Visit W)) (w : W)
      → All (IsQuiet at) visits
      → All (λ (v : Visit W). IsLimited mine at limit v.login) visits
      → tries mine visits w ≤ limit - at w
  tries_bound mine at limit [] w quiet limited = omega arith
  tries_bound mine at limit (visit ∷ visits) w quiet limited =
      let v = visit.before w in
      let u = (api_login redis prefix digest ttl limits admin loads visit.login v).1 in
      let ih = tries_bound mine at limit visits u quiet.1 limited.1 in
      let e = quiet.0 w in let step = limited.0 v in ground arith

module _ {ℓ} {W : Type ℓ} (redis : Redis W) (get : String → W → Option ℕ) (laws : IsRedis redis get)
    (prefix : String) (digest : String → String) (ttl : ℕ) (ttl_pos : 0 < ttl) (limits : Limits)
    (ip_pos : 0 < limits.per_ip_window) (global_pos : 0 < limits.global_window) (admin : Admin)
    (loads : List ℕ → Option Json) where
  login-global :
      (r : Login)
      → IsLimited redis prefix digest ttl limits admin loads
          (λ l. true)
          (number get (global_key prefix digest))
          limits.global_limit
          r
  login-global r w =
      let looked = api_login-verified redis prefix digest ttl limits admin loads r w in
      let c =
        consume-global redis get laws prefix digest limits ip_pos global_pos r.consume_fault r.ip
          w in
      let e =
        ap (λ (o : Option ℕ). or_else o 0)
          (get-api_login redis get laws prefix digest ttl ttl_pos limits admin loads
            (global_key prefix digest) r w
            (λ owner. (
              ip_key-global_key prefix digest r.ip,
              session_key-global_key prefix digest r.token,
            ))) in
      (ground arith, λ h. ground arith)

  other_ip :
      (i j : String)
      → str_eq i j ≡ false
      → str_eq (ip_key prefix digest i) (ip_key prefix digest j) ≡ false
  other_ip i j h = ground (arith, ip_key_lem prefix digest i j)

  login-ip :
      (ip : String) (r : Login)
      → (str_eq r.ip ip ≡ true → is_owner admin loads r ≡ false)
      → IsLimited redis prefix digest ttl limits admin loads
          (λ l. str_eq l.ip ip)
          (number get (ip_key prefix digest ip))
          limits.per_ip_limit
          r
  login-ip ip r stranger w =
      let looked = api_login-verified redis prefix digest ttl limits admin loads r w in
      let i = ip_key prefix digest ip in
      let kept = get-api_login redis get laws prefix digest ttl ttl_pos limits admin loads i r w in
      elim (Bool-cases (str_eq r.ip ip)) [
        | inl here ↦
            let c : IsCounted
                (consume_login_attempt redis prefix digest r.consume_fault limits r.ip w)
                (number get i) limits.per_ip_limit w =
              subst
                (λ j.
                  IsCounted
                    (consume_login_attempt redis prefix digest r.consume_fault limits r.ip w)
                    (number get (ip_key prefix digest j)) limits.per_ip_limit w)
                ((eq_iff r.ip ip).0 here)
                (consume-ip redis get laws prefix digest limits ip_pos global_pos r.consume_fault
                  r.ip w) in
            let e =
              ap (λ (o : Option ℕ). or_else o 0)
                (kept (λ owner. absurd (ground (arith, stranger here)))) in
            (ground arith, λ h. ground arith)
        | inr there ↦
            let apart = other_ip r.ip ip there in
            let c =
              ap (λ (o : Option ℕ). or_else o 0)
                (consume-other redis get laws prefix digest limits ip_pos global_pos r.consume_fault
                  i r.ip w apart
                  (apart_sym (ip_key prefix digest ip) (global_key prefix digest)
                    (ip_key-global_key prefix digest ip))) in
            let e =
              ap (λ (o : Option ℕ). or_else o 0)
                (kept (λ owner. (
                  apart,
                  apart_sym (ip_key prefix digest ip) (session_key prefix digest r.token)
                      (ip_key-session_key prefix digest ip r.token),
                ))) in
            (ground arith, λ h. ground arith)
      ]

  All-global :
      (visits : List (Visit W))
      → All
          (λ (v : Visit W).
            IsLimited redis prefix digest ttl limits admin loads
              (λ l. true)
              (number get (global_key prefix digest))
              limits.global_limit
              v.login)
          visits
  All-global [] = tt
  All-global (visit ∷ visits) = (login-global visit.login, All-global visits)

  All-ip :
      (ip : String) (visits : List (Visit W))
      → All
          (λ (v : Visit W). str_eq v.login.ip ip ≡ true → is_owner admin loads v.login ≡ false)
          visits
      → All
          (λ (v : Visit W).
            IsLimited redis prefix digest ttl limits admin loads
              (λ l. str_eq l.ip ip)
              (number get (ip_key prefix digest ip))
              limits.per_ip_limit
              v.login)
          visits
  All-ip ip [] h = tt
  All-ip ip (visit ∷ visits) h = (login-ip ip visit.login h.0, All-ip ip visits h.1)

  -- As long as the limiter's count of all logins does not expire, at most as many passwords are handed
  -- to `verify_admin_password` as the global limit leaves above that count, from whatever addresses
  -- the requests come, whether they succeed, and however the calls of Redis go.
  pub tries-global :
      (visits : List (Visit W)) (w : W)
      → All (IsQuiet (number get (global_key prefix digest))) visits
      → tries redis prefix digest ttl limits admin loads (λ l. true) visits w
        ≤ limits.global_limit - number get (global_key prefix digest) w
  tries-global visits w quiet =
      tries_bound redis prefix digest ttl limits admin loads (λ l. true)
        (number get (global_key prefix digest)) limits.global_limit visits w quiet
        (All-global visits)

  -- As long as the limiter's count of an address does not expire, and nobody there has the
  -- administrator's name and password, at most as many passwords of that address are handed
  -- to `verify_admin_password` as the limit for an address leaves above that count, whatever other
  -- addresses do.
  pub tries-ip :
      (ip : String) (visits : List (Visit W)) (w : W)
      → All (IsQuiet (number get (ip_key prefix digest ip))) visits
      → All
          (λ (v : Visit W). str_eq v.login.ip ip ≡ true → is_owner admin loads v.login ≡ false)
          visits
      → tries redis prefix digest ttl limits admin loads (λ l. str_eq l.ip ip) visits w
        ≤ limits.per_ip_limit - number get (ip_key prefix digest ip) w
  tries-ip ip visits w quiet strangers =
      tries_bound redis prefix digest ttl limits admin loads (λ l. str_eq l.ip ip)
        (number get (ip_key prefix digest ip)) limits.per_ip_limit visits w quiet
        (All-ip ip visits strangers)
