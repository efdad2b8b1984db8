-- ===== src/Access/Store/Laws.antt =====
-- What Redis promises of its commands, and that the keys of app/redis_store.py are kept apart.
use text.Mathlib.TextLemmas.{append_cancel_left, append_assoc, cons-append, nil-append}
use Prim.Native.Char.{code}
use custorouter.Common.{
  ℕ, suc, ◌<◌, ◌≡◌, ◌≢◌, sym, ◌∙◌, false, Option, none, some, String, arith, or_else, is_some, ap,
  nonempty, if◌then◌else◌, str_eq, eq_iff,
}
use custorouter.Keys.Add.{◌+text+◌}
use custorouter.Access.Store.{Redis, session_key, ip_key, global_key, key}

-- `get k w` is the value of a live key that holds a number. A positive time to live does not take the
-- key away at once.
pub record IsRedis {ℓ} {W : Type ℓ} (redis : Redis W) (get : String → W → Option ℕ) : Type ℓ where
  pub get-incr :
      (j k : String) (w : W)
      → get j ((redis.incr k w).1)
        ≡ (if str_eq k j then some (suc (or_else (get k w) 0)) else get j w)
  pub incr_lem : (k : String) (w : W) → (redis.incr k w).0 ≡ suc (or_else (get k w) 0)
  pub get-expire : (j k : String) (n : ℕ) (w : W) → 0 < n → get j (redis.expire k n w) ≡ get j w
  pub get-set_ex :
      (j k : String) (v n : ℕ) (w : W)
      → 0 < n
      → get j (redis.set_ex k v n w) ≡ (if str_eq k j then some v else get j w)
  pub get-delete :
      (j k : String) (w : W) → get j (redis.delete k w) ≡ (if str_eq k j then none else get j w)
  pub exists_lem : (k : String) (w : W) → redis.exists k w ≡ is_some (get k w)

-- A command touches nothing of another key: `see k w` is any view of one key, such as the deadline of its
-- time to live.
pub record IsFramed {ℓ} {W : Type ℓ} (redis : Redis W) (see : String → W → Option ℕ) : Type ℓ where
  pub incr_other :
      (j k : String) (w : W) → str_eq k j ≡ false → see j ((redis.incr k w).1) ≡ see j w
  pub expire_other :
      (j k : String) (n : ℕ) (w : W) → str_eq k j ≡ false → see j (redis.expire k n w) ≡ see j w
  pub set_ex_other :
      (j k : String) (v n : ℕ) (w : W) → str_eq k j ≡ false → see j (redis.set_ex k v n w) ≡ see j w
  pub delete_other :
      (j k : String) (w : W) → str_eq k j ≡ false → see j (redis.delete k w) ≡ see j w

pub apart_sym : (a b : String) → str_eq a b ≡ false → str_eq b a ≡ false
apart_sym a b h = ground (arith, eq_iff a b, eq_iff b a)

-- The first character.
abbrev first : String → Option ℕ
first String.[] = none
first (String.◌∷◌ c s) = some (code c)

first-append : (s t : String) → first (s +text+ t) ≡ (if nonempty s then first s else first t)
first-append String.[] t = ap first (nil-append t)
first-append (String.◌∷◌ c s) t = ap first (cons-append c s t)

module _ (prefix : String) (digest : String → String) where
  key_cancel : (a b : String) → key prefix digest a ≡ key prefix digest b → a ≡ b
  unfolding key
  key_cancel a b e =
      append_cancel_left ":" a b (append_cancel_left prefix (":" +text+ a) (":" +text+ b) e)

  login_ip-session : (a b : String) → "login:ip:" +text+ a ≢ "session:" +text+ b
  login_ip-session a b e =
      let f = ap first e in ground (arith, first-append "login:ip:" a, first-append "session:" b)

  session-global : (a : String) → "session:" +text+ a ≢ "login:global"
  session-global a e = let f = ap first e in ground (arith, first-append "session:" a)

  login_ip-global : (a : String) → "login:ip:" +text+ a ≢ "login:global"
  login_ip-global a e =
      let f : "ip:" +text+ a ≡ "global" =
        append_cancel_left "login:" ("ip:" +text+ a) "global"
          (sym (append_assoc "login:" "ip:" a) ∙ e) in
      let g = ap first f in ground (arith, first-append "ip:" a)

  pub ip_key-global_key :
      (ip : String) → str_eq (ip_key prefix digest ip) (global_key prefix digest) ≡ false
  unfolding ip_key global_key
  ip_key-global_key ip = ground (
    arith,
    eq_iff (ip_key prefix digest ip) (global_key prefix digest),
    key_cancel ("login:ip:" +text+ ip) "login:global",
    login_ip-global ip,
  )

  pub ip_key-session_key :
      (ip token : String)
      → str_eq (ip_key prefix digest ip) (session_key prefix digest token) ≡ false
  unfolding ip_key session_key
  ip_key-session_key ip token = ground (
    arith,
    eq_iff (ip_key prefix digest ip) (session_key prefix digest token),
    key_cancel ("login:ip:" +text+ ip) ("session:" +text+ digest token),
    login_ip-session ip (digest token),
  )

  pub ip_key_lem :
      (i j : String) → str_eq (ip_key prefix digest i) (ip_key prefix digest j) ≡ str_eq i j
  unfolding ip_key
  ip_key_lem i j = ground (
    arith,
    eq_iff i j,
    eq_iff (ip_key prefix digest i) (ip_key prefix digest j),
    key_cancel ("login:ip:" +text+ i) ("login:ip:" +text+ j),
    append_cancel_left "login:ip:" i j,
  )

  pub session_key-global_key :
      (token : String) → str_eq (session_key prefix digest token) (global_key prefix digest) ≡ false
  unfolding session_key global_key
  session_key-global_key token = ground (
    arith,
    eq_iff (session_key prefix digest token) (global_key prefix digest),
    key_cancel ("session:" +text+ digest token) "login:global",
    session-global (digest token),
  )
