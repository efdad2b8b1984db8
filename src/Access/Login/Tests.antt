-- ===== src/Access/Login/Tests.antt =====
-- Logins at concrete inputs, with Redis as a dict whose keys never expire.
use custorouter.Common.{
  ℕ, suc, ◌≤◌, ◌≡◌, refl, true, Option, none, some, String, List, [], ◌∷◌, arith, or_else, is_some,
  str_eq, Dict, lookup, insert, erase, lookup-insert, lookup-erase, ◌-◌,
}
use custorouter.Common.Json.{Json, Fields}
use custorouter.Access.Store.{
  consume_login_attempt, call, Redis, Fault, Limits, session_key, ip_key, global_key,
}
use custorouter.Access.Store.Laws.{IsRedis, IsFramed}
use custorouter.Access.Login.{
  read_login, is_right, Login, Admin, api_login, require_auth, api_logout, refuse,
}
use custorouter.Access.Login.Limit.{Visit, tries, tries-global, tries-ip}
use custorouter.Access.Login.Sessions.{api_login-stranger, api_login-require_auth}

abbrev memory : Redis (Dict ℕ)
memory = record {
  set_ex = λ k v n d. insert k v d;
  exists = λ k d. is_some (lookup k d);
  expire = λ k n d. d;
  incr = λ k d. (suc (or_else (lookup k d) 0), insert k (suc (or_else (lookup k d) 0)) d);
  delete = erase;
}

memory-IsRedis : IsRedis memory lookup
memory-IsRedis = record {
  get-incr = λ j k d. lookup-insert k j (suc (or_else (lookup k d) 0)) d;
  incr_lem = λ k d. refl;
  get-expire = λ j k n d pos. refl;
  get-set_ex = λ j k v n d pos. lookup-insert k j v d;
  get-delete = λ j k d. lookup-erase k j d;
  exists_lem = λ k d. refl;
}

-- Redis at the instant 0, with the deadlines beside the values.
abbrev Timed : Type 0
Timed = Dict ℕ × Dict ℕ

abbrev timed : Redis Timed
timed = record {
  set_ex = λ k v n w. (insert k v w.0, insert k n w.1);
  exists = λ k w. is_some (lookup k w.0);
  expire = λ k n w. (w.0, insert k n w.1);
  incr =
      λ k w. (suc (or_else (lookup k w.0) 0), (insert k (suc (or_else (lookup k w.0) 0)) w.0, w.1));
  delete = λ k w. (erase k w.0, erase k w.1);
}

abbrev value_in : String → Timed → Option ℕ
value_in k w = lookup k w.0

abbrev deadline_in : String → Timed → Option ℕ
deadline_in k w = lookup k w.1

timed-IsRedis : IsRedis timed value_in
timed-IsRedis = record {
  get-incr = λ j k w. lookup-insert k j (suc (or_else (lookup k w.0) 0)) w.0;
  incr_lem = λ k w. refl;
  get-expire = λ j k n w pos. refl;
  get-set_ex = λ j k v n w pos. lookup-insert k j v w.0;
  get-delete = λ j k w. lookup-erase k j w.0;
  exists_lem = λ k w. refl;
}

timed-IsFramed : IsFramed timed deadline_in
timed-IsFramed = record {
  incr_other = λ j k w h. refl;
  expire_other = λ j k n w h. rw (lookup-insert k j n w.1, h) refl;
  set_ex_other = λ j k v n w h. rw (lookup-insert k j n w.1, h) refl;
  delete_other = λ j k w h. rw (lookup-erase k j w.1, h) refl;
}

abbrev limits : Limits
limits = record { per_ip_limit = 5; per_ip_window = 900; global_limit = 30; global_window = 60 }

abbrev admin : Admin
admin = record { username = "admin"; verify = λ password. some (str_eq password "sesame") }

-- A decoder for the two bodies below.
abbrev payload : String → Json
payload password = Json.object (
    Fields.field "username" (Json.string "admin")
      (Fields.field "password" (Json.string password) Fields.end))

abbrev loads : List ℕ → Option Json
loads [] = none
loads (n ∷ []) = some (payload "sesame")
loads (n ∷ m ∷ ns) = some (payload "guess")

abbrev login_with : List ℕ → Login
login_with raw = record {
  ip = "10.0.0.1";
  body = raw ∷ [];
  consume_fault = Fault.fine;
  clear_fault = Fault.fine;
  create_fault = Fault.fine;
  token = "t0k3n";
}

abbrev good : Login
good = login_with (1 ∷ [])

abbrev bad : Login
bad = login_with (1 ∷ 2 ∷ [])

abbrev visits : List (Visit (Dict ℕ))
visits = record { before = λ d. d; login = bad } ∷ record { before = λ d. d; login = bad } ∷ []

tries-global_example :
    tries memory "r" (λ t. t) 60 limits admin loads (λ l. true) visits []
    ≤ limits.global_limit - or_else (lookup (global_key "r" (λ t. t)) []) 0
tries-global_example =
    tries-global memory lookup memory-IsRedis "r" (λ t. t) 60 (omega arith) limits (omega arith)
      (omega arith) admin loads visits [] (λ d. omega arith, (λ d. omega arith, tt))

tries-ip_example :
    tries memory "r" (λ t. t) 60 limits admin loads (λ l. str_eq l.ip "10.0.0.1") visits []
    ≤ limits.per_ip_limit - or_else (lookup (ip_key "r" (λ t. t) "10.0.0.1") []) 0
unfolding read_login is_right
tries-ip_example =
    tries-ip memory lookup memory-IsRedis "r" (λ t. t) 60 (omega arith) limits (omega arith)
      (omega arith) admin loads "10.0.0.1" visits [] (λ d. omega arith, (λ d. omega arith, tt))
      (λ h. refl, (λ h. refl, tt))

-- One session that is live.
abbrev before : Timed
before = (("r:session:t0k3n", 1) ∷ [], ("r:session:t0k3n", 7) ∷ [])

api_login-stranger_example :
    ((api_login timed "r" (λ t. t) 60 limits admin loads bad before).0.cookie ≡ none)
    × ((token : String)
        → (value_in
              (session_key "r" (λ t. t) token)
              ((api_login timed "r" (λ t. t) 60 limits admin loads bad before).1)
            ≡ value_in (session_key "r" (λ t. t) token) before)
          × (deadline_in
                (session_key "r" (λ t. t) token)
                ((api_login timed "r" (λ t. t) 60 limits admin loads bad before).1)
              ≡ deadline_in (session_key "r" (λ t. t) token) before))
unfolding consume_login_attempt call lookup insert read_login is_right
api_login-stranger_example =
    api_login-stranger timed value_in timed-IsRedis "r" (λ t. t) 60 (omega arith) limits
      (omega arith) (omega arith) admin loads deadline_in timed-IsFramed bad before refl

api_login-require_auth_example :
    ((api_login memory "r" (λ t. t) 60 limits admin loads good []).0.cookie ≡ some "t0k3n")
    × ((require_auth memory "r"
          (λ t. t)
          60
          Fault.fine
          (some "t0k3n")
          ((api_login memory "r" (λ t. t) 60 limits admin loads good []).1)).0
        ≡ none)
    × ((require_auth memory "r"
          (λ t. t)
          60
          Fault.fine
          (some "t0k3n")
          ((api_logout memory "r" (λ t. t) 60 Fault.fine (some "t0k3n") []).1)).0
        ≡ some (refuse 401 "Not authenticated"))
unfolding consume_login_attempt call lookup insert read_login is_right
api_login-require_auth_example =
    api_login-require_auth memory lookup memory-IsRedis "r" (λ t. t) 60 (omega arith) limits
      (omega arith) (omega arith) admin loads good [] [] refl refl refl refl
