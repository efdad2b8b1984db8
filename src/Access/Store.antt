-- ===== src/Access/Store.antt =====
-- app/redis_store.py: the sessions of the console and the limiter of its logins.
--
-- Redis is a parameter: commands on a state of the world. A call may fail in front of the command or
-- behind it, and then the caller sees none.

pub mod Laws
pub mod Counts
use custorouter.Common.{
  ℕ, Bool, true, false, not, ◌||◌, Option, none, some, String, ltb, ◌==◌, if◌then◌else◌, nonempty,
  text_length,
}
use custorouter.Keys.Add.{◌+text+◌}

-- The commands that are sent.
pub record Redis {ℓ} (W : Type ℓ) : Type ℓ where
  pub set_ex : String → ℕ → ℕ → W → W
  pub exists : String → W → Bool
  pub expire : String → ℕ → W → W
  pub incr : String → W → ℕ × W
  pub delete : String → W → W

-- How a call goes: answered, failed before it was done, or done with its answer lost.
pub data Fault : Type 0 where
  fine : Fault
  unsent : Fault
  unanswered : Fault

unfoldable pub call {ℓ} : {A : Type 0} {W : Type ℓ} → Fault → A × W → W → Option A × W
call Fault.fine done w = (some done.0, done.1)
call Fault.unsent done w = (none, w)
call Fault.unanswered done w = (none, done.1)

pub record Limits : Type 0 where
  pub per_ip_limit : ℕ
  pub per_ip_window : ℕ
  pub global_limit : ℕ
  pub global_window : ℕ

-- REDIS_KEY_PREFIX and SHA-256.
module _ (prefix : String) (digest : String → String) where
  -- `_key`
  unfoldable pub key : String → String
  key name = prefix +text+ ":" +text+ name

  unfoldable pub session_key : String → String
  unfolding key
  session_key token = key ("session:" +text+ digest token)

  unfoldable pub ip_key : String → String
  unfolding key
  ip_key ip = key ("login:ip:" +text+ ip)

  unfoldable pub global_key : String
  unfolding key
  global_key = key "login:global"

-- INCR, and EXPIRE at the first count.
unfoldable pub count_up {ℓ} : {W : Type ℓ} → Redis W → String → ℕ → W → ℕ × W
count_up redis k window w =
    let (n, v) = redis.incr k w in (n, if n == 1 then redis.expire k window v else v)

module _ {ℓ} {W : Type ℓ} (redis : Redis W) (prefix : String) (digest : String → String) where
  unfoldable pub create_session : Fault → String → ℕ → W → Option Bool × W
  unfolding session_key
  create_session fault token ttl w =
      call fault (true, redis.set_ex (session_key prefix digest token) 1 ttl w) w

  -- The transaction of EXISTS and EXPIRE.
  unfoldable pub touch_session : String → ℕ → W → Bool × W
  unfolding session_key
  touch_session token ttl w = (
    redis.exists (session_key prefix digest token) w,
    redis.expire (session_key prefix digest token) ttl w,
  )

  unfoldable pub validate_session : Fault → Option String → ℕ → W → Option Bool × W
  unfolding touch_session
  validate_session fault none ttl w = (some false, w)
  validate_session fault (some token) ttl w =
      if not (nonempty token) || ltb 128 (text_length token)
      then (some false, w)
      else call fault (touch_session token ttl w) w

  unfoldable pub revoke_session : Fault → Option String → W → Option Bool × W
  unfolding session_key
  revoke_session fault none w = (some true, w)
  revoke_session fault (some token) w =
      if nonempty token
      then call fault (true, redis.delete (session_key prefix digest token) w) w
      else (some true, w)

  -- The script, which Redis runs as one step.
  unfoldable pub count_attempt : Limits → String → W → Bool × W
  unfolding count_up ip_key global_key
  count_attempt limits ip w =
      let (per_ip, v) = count_up redis (ip_key prefix digest ip) limits.per_ip_window w in
      let (global, u) = count_up redis (global_key prefix digest) limits.global_window v in
      (not (ltb limits.per_ip_limit per_ip || ltb limits.global_limit global), u)

  unfoldable pub consume_login_attempt : Fault → Limits → String → W → Option Bool × W
  unfolding count_attempt
  consume_login_attempt fault limits ip w = call fault (count_attempt limits ip w) w

  unfoldable pub clear_login_attempts : Fault → String → W → Option Bool × W
  unfolding ip_key
  clear_login_attempts fault ip w = call fault (true, redis.delete (ip_key prefix digest ip) w) w
