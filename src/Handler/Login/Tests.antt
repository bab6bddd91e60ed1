-- ===== src/Handler/Login/Tests.antt =====
-- Logins on the reference database, the memory store and the reference package jwt, and instances
-- of the theorems. A password is its own hash, and the digest of a text is the text.
use go_user_system.Common.{
  ℕ, String, true, none, some, ◌≡◌, refl, List, [], ◌∷◌, ◌+◌, ◌≤◌, arith, str_eq,
}
use go_user_system.Common.Int.{ℤ, pos, ◌≤ℤ◌, ◌-ℤ◌, wrap_int64, quot, increment}
use go_user_system.Common.Dict.{lookup, insert, erase}
use go_user_system.Common.Time.{Time, sub}
use go_user_system.Errors.{Code, from_error}
use go_user_system.Result.{ok}
use go_user_system.Database.{Tables}
use go_user_system.Database.Reference.{reference}
use go_user_system.Dao.{get_user_by_username, update_last_login_at_by_id}
use go_user_system.AuthState.{
  MemoryStore, new_memory_store, account_failure_key, ip_failure_key, check_login_limit,
  record_login_failure, reset_login_account, increment_counter, counter_retry_after,
}
use go_user_system.AuthState.Interface.{memory_store}
use go_user_system.Token.Reference.{sealing}
use go_user_system.Service.Access.{check_login_allowed, record_failed_login, reset_login_failures}
use go_user_system.Service.Auth.{store_refresh_token}
use go_user_system.Service.User.{login}
use go_user_system.Middleware.{handle_error}
use go_user_system.Handler.{UserHandler, reply}
use go_user_system.Handler.Tests.{handlers, issuer, signed, hash, one_session}
use go_user_system.Handler.Login.{
  LoginMoment, limited, failed, login_handler, try_login, login_ip, retry_after_seconds,
}
use go_user_system.Handler.Login.Guesses.{checked, in_memory}
use go_user_system.Handler.Login.Guessing.{LoginCall, IsInWindow}
use go_user_system.Handler.Login.Traffic.{
  Flight, admitted, mistaken, Now, let_through, fails, records, Reach, begin, next,
}
use go_user_system.Handler.Login.Opens.{lockout_ends}
use go_user_system.Handler.Login.Bounded.{wrong_guesses_bounded, login_handler_locks}

logins : Unit {0}
unfolding handlers get_user_by_username update_last_login_at_by_id account_failure_key
    ip_failure_key check_login_limit record_login_failure reset_login_account increment_counter
    counter_retry_after check_login_allowed record_failed_login reset_login_failures
    store_refresh_token login handle_error from_error login_handler retry_after_seconds lookup
    insert erase sub ◌-ℤ◌ wrap_int64 quot increment new_memory_store
logins = tt

abbrev same : String → String
same s = s

abbrev desk : UserHandler
desk = record {
  db = reference;
  store = memory_store same;
  jwt = sealing;
  manager = issuer;
  bcrypt = record { generate = ok; matches = str_eq };
  users = record { initialized = true; has_refresh_repo = true; has_rbac_repo = true };
  text_of = signed;
  hash_token = hash;
  lower = same;
  limit = record { account_limit = pos 2; ip_limit = pos 9; window = pos 5000000000 };
  initialized = true;
}

abbrev moment : LoginMoment
moment = record {
  checked_at = pos 20;
  login_at = pos 20;
  recorded_at = pos 20;
  reset_at = pos 20;
  access_at = pos 20;
  refresh_at = pos 20;
  access_jti = "a3";
  refresh_jti = "r3";
}

abbrev try : String → LoginCall
try password = record {
  at = moment;
  client_ip = "";
  request = record { username = "fay"; password = password };
}

login_tests :
    ((login_handler desk moment "" none (one_session, new_memory_store)).0
      ≡ failed (reply 400 Code.invalid_params "参数错误"))
    × (retry_after_seconds (pos 1000000001) ≡ pos 2)
unfolding logins
login_tests = (refl, refl)

inside : (password : String) → IsInWindow same desk "fay" (pos 10) (try password)
unfolding logins
inside password = (refl, ground arith, ground arith, ground arith, ground arith)

abbrev Traffics : Type 0
Traffics = Now same desk "fay" (pos 10)

abbrev x_failed : MemoryStore
x_failed =
    (record_failed_login (memory_store same) same desk.limit "fay" "unknown" (pos 20)
      new_memory_store).1

abbrev locked : MemoryStore
locked =
    (record_failed_login (memory_store same) same desk.limit "fay" "unknown" (pos 20) x_failed).1

abbrev traffic : MemoryStore → List Flight → ℕ → ℕ → Traffics
traffic store flights compared noted = record {
  state = one_session;
  store = store;
  flights = flights;
  compared = compared;
  noted = noted;
}

-- Two requests pass the check before either records its failure.
both_recorded :
    Reach same desk "fay" (pos 10) 2 one_session new_memory_store (traffic locked [] 2 2)
unfolding logins
both_recorded =
    next
      (next
        (next
          (next
            (next
              (next begin
                (let_through (try "x") (traffic new_memory_store [] 0 0) (inside "x") refl)
                (omega arith))
              (let_through (try "y") (traffic new_memory_store (admitted (try "x") ∷ []) 0 0)
                (inside "y") refl)
              (omega arith))
            (fails (try "x")
              (traffic new_memory_store (admitted (try "y") ∷ admitted (try "x") ∷ []) 0 0)
              (admitted (try "y") ∷ []) [] refl refl)
            (omega arith))
          (fails (try "y")
            (traffic new_memory_store (admitted (try "y") ∷ mistaken (try "x") ∷ []) 1 0) []
            (mistaken (try "x") ∷ []) refl refl)
          (omega arith))
        (records (try "x")
          (traffic new_memory_store (mistaken (try "y") ∷ mistaken (try "x") ∷ []) 2 0)
          (mistaken (try "y") ∷ []) [] refl (inside "x"))
        (omega arith))
      (records (try "y") (traffic x_failed (mistaken (try "y") ∷ []) 2 1) [] [] refl (inside "y"))
      (omega arith)

wrong_guesses_bounded_example : (traffic locked [] 2 2).compared + 1 ≤ 2 + 2
unfolding logins
wrong_guesses_bounded_example =
    wrong_guesses_bounded same desk "fay" (pos 10) 2 2 one_session new_memory_store
      (traffic locked [] 2 2) refl refl (omega arith) refl both_recorded

login_handler_locks_example :
    let o =
      login_handler
        (in_memory same desk)
        moment
        ""
        (some (record { username = "fay"; password = "h" }))
        (one_session, locked) in
    (seconds : ℤ) × (o.0
      ≡ limited seconds (reply 429 Code.login_rate_limited "too many login attempts"))
    × (o.1.0 ≡ one_session)
unfolding logins
login_handler_locks_example =
    login_handler_locks same desk "fay" (pos 10) 2 2 one_session new_memory_store
      (traffic locked [] 2 2) (try "h") refl refl (omega arith) refl both_recorded (omega arith)
      (inside "h")

lockout_ends_example :
    (e : Time) × ((at : LoginMoment) (s : Tables)
      → e ≤ℤ at.checked_at
      → login_handler
          (in_memory same desk)
          at
          ""
          (some (record { username = "fay"; password = "h" }))
          (s, locked)
        ≡ try_login
            (in_memory same desk)
            at
            (record { username = "fay"; password = "h" })
            (login_ip "")
            (
              s,
              checked same desk at
                  (record { username = "fay"; password = "h" })
                  (login_ip "")
                  locked,
            ))
unfolding logins
lockout_ends_example =
    lockout_ends same desk (record { username = "fay"; password = "h" }) "" locked refl
