-- ===== src/Access/Store/Counts.antt =====
-- What the limiter and the sessions of app/redis_store.py do to each key.
use custorouter.Common.{
  ◌∙◌, ℕ, suc, ◌+◌, ◌<◌, ◌≤◌, ◌≡◌, refl, Bool, true, false, Option, none, some, String, arith,
  or_else, if◌then◌else◌, str_eq, eq_iff, eq_refl,
}
use custorouter.Access.Store.{
  Redis, Fault, Limits, call, ip_key, global_key, count_up, count_attempt, consume_login_attempt,
}
use custorouter.Access.Store.Laws.{IsFramed, IsRedis, ip_key-global_key}

-- The number that a key holds, 0 without the key.
abbrev pub number {ℓ} : {W : Type ℓ} → (String → W → Option ℕ) → String → W → ℕ
number get k w = or_else (get k w) 0

-- Whether a call admitted the attempt.
abbrev pub is_admitted : Option Bool → Bool
is_admitted none = false
is_admitted (some admitted) = admitted

abbrev pub IsCounted {ℓ} : {W : Type ℓ} → Option Bool × W → (W → ℕ) → ℕ → W → Type 0
IsCounted done at limit w =
    (at w + (if is_admitted done.0 then 1 else 0) ≤ at done.1)
    × (is_admitted done.0 ≡ true → at done.1 ≤ limit)

module _ {ℓ} {W : Type ℓ} (redis : Redis W) (get : String → W → Option ℕ)
    (laws : IsRedis redis get) where
  pub count_up_lem : (k : String) (n : ℕ) (w : W) → (count_up redis k n w).0 ≡ suc (number get k w)
  unfolding count_up
  count_up_lem k n w = laws.incr_lem k w

  pub get-count_up :
      (j k : String) (n : ℕ) (w : W)
      → 0 < n
      → get j ((count_up redis k n w).1)
        ≡ (if str_eq k j then some (suc (number get k w)) else get j w)
  unfolding count_up
  get-count_up j k n w pos =
      let v = (redis.incr k w).1 in
      let e = laws.get-expire j k n v pos in let f = laws.get-incr j k w in ground arith

  module _ (prefix : String) (digest : String → String) (limits : Limits)
      (ip_pos : 0 < limits.per_ip_window) (global_pos : 0 < limits.global_window) where
    -- A counted attempt, whether it is admitted or not.
    get-count_attempt :
        (j ip : String) (w : W)
        → get j ((count_attempt redis prefix digest limits ip w).1) ≡ (
            if str_eq (global_key prefix digest) j
            then some (suc (number get (global_key prefix digest) w))
            else if str_eq (ip_key prefix digest ip) j
            then some (suc (number get (ip_key prefix digest ip) w))
            else get j w)
    unfolding count_attempt
    get-count_attempt j ip w =
        let i = ip_key prefix digest ip in
        let g = global_key prefix digest in
        let v = (count_up redis i limits.per_ip_window w).1 in
        let e = get-count_up j g limits.global_window v global_pos in
        let f = get-count_up j i limits.per_ip_window w ip_pos in
        let h = get-count_up g i limits.per_ip_window w ip_pos in
        let apart = ip_key-global_key prefix digest ip in ground arith

    count_attempt_global :
        (ip : String) (w : W)
        → (count_attempt redis prefix digest limits ip w).0 ≡ true
        → suc (number get (global_key prefix digest) w) ≤ limits.global_limit
    unfolding count_attempt
    count_attempt_global ip w h =
        let i = ip_key prefix digest ip in
        let g = global_key prefix digest in
        let v = (count_up redis i limits.per_ip_window w).1 in
        let e = count_up_lem g limits.global_window v in
        let f = get-count_up g i limits.per_ip_window w ip_pos in
        let apart = ip_key-global_key prefix digest ip in ground arith

    count_attempt_ip :
        (ip : String) (w : W)
        → (count_attempt redis prefix digest limits ip w).0 ≡ true
        → suc (number get (ip_key prefix digest ip) w) ≤ limits.per_ip_limit
    unfolding count_attempt
    count_attempt_ip ip w h =
        let e = count_up_lem (ip_key prefix digest ip) limits.per_ip_window w in ground arith

    -- An attempt that is admitted is counted under a number within the limit, and no attempt takes the
    -- number back.
    pub consume-global :
        (fault : Fault) (ip : String) (w : W)
        → IsCounted
            (consume_login_attempt redis prefix digest fault limits ip w)
            (number get (global_key prefix digest))
            limits.global_limit
            w
    unfolding consume_login_attempt call
    consume-global Fault.fine ip w =
        let g = global_key prefix digest in
        let e = get-count_attempt g ip w in
        let f = count_attempt_global ip w in
        let same = eq_refl g in (ground arith, λ h. ground arith)
    consume-global Fault.unsent ip w = (omega arith, λ h. cc)
    consume-global Fault.unanswered ip w =
        let g = global_key prefix digest in
        let e = get-count_attempt g ip w in let same = eq_refl g in (ground arith, λ h. cc)

    pub consume-ip :
        (fault : Fault) (ip : String) (w : W)
        → IsCounted
            (consume_login_attempt redis prefix digest fault limits ip w)
            (number get (ip_key prefix digest ip))
            limits.per_ip_limit
            w
    unfolding consume_login_attempt call
    consume-ip Fault.fine ip w =
        let i = ip_key prefix digest ip in
        let e = get-count_attempt i ip w in
        let f = count_attempt_ip ip w in
        let same = eq_refl i in
        let apart = ip_key-global_key prefix digest ip in
        let order = eq_iff (global_key prefix digest) i in
        let back = eq_iff i (global_key prefix digest) in (ground arith, λ h. ground arith)
    consume-ip Fault.unsent ip w = (omega arith, λ h. cc)
    consume-ip Fault.unanswered ip w =
        let i = ip_key prefix digest ip in
        let e = get-count_attempt i ip w in
        let same = eq_refl i in
        let apart = ip_key-global_key prefix digest ip in
        let order = eq_iff (global_key prefix digest) i in
        let back = eq_iff i (global_key prefix digest) in (ground arith, λ h. cc)

    -- The number of another address stays, and so does every session.
    pub consume-other :
        (fault : Fault) (j ip : String) (w : W)
        → str_eq (ip_key prefix digest ip) j ≡ false
        → str_eq (global_key prefix digest) j ≡ false
        → get j ((consume_login_attempt redis prefix digest fault limits ip w).1) ≡ get j w
    unfolding consume_login_attempt call
    consume-other Fault.fine j ip w h k = let e = get-count_attempt j ip w in ground arith
    consume-other Fault.unsent j ip w h k = refl
    consume-other Fault.unanswered j ip w h k = let e = get-count_attempt j ip w in ground arith

-- An attempt touches the keys of its address and of all logins alone.
module _ {ℓ} {W : Type ℓ} (redis : Redis W) (see : String → W → Option ℕ)
    (framed : IsFramed redis see) where
  count_up-framed :
      (j k : String) (n : ℕ) (w : W)
      → str_eq k j ≡ false
      → see j ((count_up redis k n w).1) ≡ see j w
  unfolding count_up
  count_up-framed j k n w h =
      let v = (redis.incr k w).1 in
      let e = framed.incr_other j k w h in let f = framed.expire_other j k n v h in ground arith

  pub consume-framed :
      (prefix : String) (digest : String → String) (limits : Limits) (fault : Fault) (j ip : String)
      (w : W)
      → str_eq (ip_key prefix digest ip) j ≡ false
      → str_eq (global_key prefix digest) j ≡ false
      → see j ((consume_login_attempt redis prefix digest fault limits ip w).1) ≡ see j w
  unfolding consume_login_attempt call count_attempt
  consume-framed prefix digest limits Fault.unsent j ip w h k = refl
  consume-framed prefix digest limits Fault.fine j ip w h k =
      let v = (count_up redis (ip_key prefix digest ip) limits.per_ip_window w).1 in
      count_up-framed j (global_key prefix digest) limits.global_window v k
      ∙ count_up-framed j (ip_key prefix digest ip) limits.per_ip_window w h
  consume-framed prefix digest limits Fault.unanswered j ip w h k =
      let v = (count_up redis (ip_key prefix digest ip) limits.per_ip_window w).1 in
      count_up-framed j (global_key prefix digest) limits.global_window v k
      ∙ count_up-framed j (ip_key prefix digest ip) limits.per_ip_window w h
