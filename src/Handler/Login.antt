-- ===== src/Handler/Login.antt =====
-- internal/handler/user_handler.go: `LoginHandler`, with the limit of failed logins. The readings of
-- the clock and the fresh identifiers are arguments.
pub mod Wait
pub mod Guesses
pub mod Guessing
pub mod Traffic
pub mod Alone
pub mod Bounded
pub mod Opens
mod Tests
use go_user_system.Common.{String, Bool, false, Option, none, some, if◌then◌else◌}
use go_user_system.Common.Int.{ℤ, pos, ltb_ℤ, leb_ℤ, wrap_int64, ◌+ℤ◌, ◌-ℤ◌, quot}
use go_user_system.Common.Text.{trim_space, is_empty, is_blank}
use go_user_system.Common.Time.{Time, Duration, second}
use go_user_system.Errors.{
  Error, sentinel, Code, Sentinel, login_rate_limited, error_is, equals_invalid_credentials,
}
use go_user_system.Model.{User}
use go_user_system.Result.{Result, ok, err}
use go_user_system.Token.{IssuedToken, generate_access_token_issue, generate_refresh_token}
use go_user_system.Service.Access.{check_login_allowed, record_failed_login, reset_login_failures}
use go_user_system.Service.Auth.{store_refresh_token}
use go_user_system.Service.User.{login}
use go_user_system.Middleware.{Reply, handle_error}
use go_user_system.Handler.{UserHandler, reply, generate_failure, refresh_token_model}

pub record LoginRequest : Type 0 where
  pub username : String
  pub password : String

-- The readings of the clock: by the store at the check, at the record of a failure and at the
-- reset, by the service, and at the two tokens; and the identifiers of these.
pub record LoginMoment : Type 0 where
  pub checked_at : Time
  pub login_at : Time
  pub recorded_at : Time
  pub reset_at : Time
  pub access_at : Time
  pub refresh_at : Time
  pub access_jti : String
  pub refresh_jti : String

-- A failure, a failure with a Retry-After header, or both tokens with the user.
pub data LoginAnswer (Text : Type 0) : Type 0 where
  failed : Reply → LoginAnswer Text
  limited : ℤ → Reply → LoginAnswer Text
  logged_in : IssuedToken Text → IssuedToken Text → User → LoginAnswer Text

abbrev pub login_ip : String → String
login_ip client_ip = if is_blank client_ip then "unknown" else trim_space client_ip

-- The seconds of the Retry-After header, computed in int64.
unfoldable pub retry_after_seconds : Duration → ℤ
retry_after_seconds wait =
    let seconds = quot (wrap_int64 (wrap_int64 (wait +ℤ second) -ℤ pos 1)) 1000000000 in
    if ltb_ℤ seconds (pos 1) then pos 1 else seconds

-- `respondLoginRateLimited`, where it answers.
abbrev pub rate_limited : {Text : Type 0} → Duration → LoginAnswer Text
rate_limited wait =
    limited (retry_after_seconds wait)
      (handle_error (sentinel login_rate_limited) Code.login_rate_limited "登录尝试过于频繁")

abbrev pub login_failure : {Text : Type 0} → Error → LoginAnswer Text
login_failure e = failed (handle_error e Code.login_failed "登录错误")

abbrev pub limiter_failure : {Text : Type 0} → String → Error → LoginAnswer Text
limiter_failure message e = failed (handle_error e Code.auth_state_unavailable message)

-- Whether the limiter lets a request go on.
abbrev pub passes_limit : Result Duration → Bool
passes_limit (err e) = false
passes_limit (ok wait) = leb_ℤ wait (pos 0)

module _ (h : UserHandler) (at : LoginMoment) where
  open h use {db, store, jwt}

  abbrev pub Both : Type 0
  Both = db.State × store.State

  abbrev pub Ending : Type 0
  Ending = LoginAnswer jwt.Text × Both

  abbrev pub after_store :
      IssuedToken jwt.Text → IssuedToken jwt.Text → User → Result (Unit {0}) → Both → Ending
  after_store access next user (err e) s =
      (failed (handle_error e Code.refresh_token_invalid "保存 refresh_token 失败"), s)
  after_store access next user (ok tt) s = (logged_in access next user, s)

  abbrev pub with_refresh :
      IssuedToken jwt.Text → User → Result (IssuedToken jwt.Text) → Both → Ending
  with_refresh access user (err e) s = (failed (generate_failure "生成 refresh_token 失败" e), s)
  with_refresh access user (ok next) (s, k) =
      let o =
        store_refresh_token db h.initialized
          (some (refresh_token_model user.id next (h.hash_token next.token_text))) s in
      after_store access next user o.0 (o.1, k)

  abbrev pub with_access : User → Result (IssuedToken jwt.Text) → Both → Ending
  with_access user (err e) s = (failed (generate_failure "生成 access_token 失败" e), s)
  with_access user (ok access) s =
      with_refresh access user
        (generate_refresh_token jwt h.manager user.id user.username user.auth_version at.refresh_at
          at.refresh_jti)
        s

  abbrev pub after_reset : User → Result (Unit {0}) → Both → Ending
  after_reset user (err e) s = (limiter_failure "清理登录失败次数失败" e, s)
  after_reset user (ok tt) s =
      with_access user
        (generate_access_token_issue jwt h.manager user.id user.username user.auth_version
          at.access_at at.access_jti)
        s

  -- The wait that a recorded failure answers, for the error of the login.
  abbrev pub after_record : Error → Result Duration → Both → Ending
  after_record e (err f) s = (limiter_failure "记录登录失败次数失败" f, s)
  after_record e (ok wait) s =
      if leb_ℤ wait (pos 0) then (login_failure e, s) else (rate_limited wait, s)

  abbrev pub after_login : LoginRequest → String → Result User → Both → Ending
  after_login req ip (err e) (s, k) =
      let o = record_failed_login store h.lower h.limit req.username ip at.recorded_at k in
      if error_is equals_invalid_credentials e
      then after_record e o.0 (s, o.1)
      else (login_failure e, (s, k))
  after_login req ip (ok user) (s, k) =
      let o = reset_login_failures store h.lower h.limit req.username at.reset_at k in
      after_reset user o.0 (s, o.1)

  abbrev pub try_login : LoginRequest → String → Both → Ending
  try_login req ip (s, k) =
      let o = login db h.bcrypt h.users req.username req.password at.login_at s in
      after_login req ip o.0 (o.1, k)

  abbrev pub after_check : LoginRequest → String → Result Duration → Both → Ending
  after_check req ip (err e) s = (limiter_failure "登录限流检查失败" e, s)
  after_check req ip (ok wait) s =
      if passes_limit (ok wait) then try_login req ip s else (rate_limited wait, s)

  -- The body is what `ShouldBindJSON` reads, if it reads it.
  unfoldable pub login_handler : String → Option LoginRequest → Both → Ending
  login_handler client_ip none s = (failed (reply 400 Code.invalid_params "参数错误"), s)
  login_handler client_ip (some req) (s, k) =
      let ip = login_ip client_ip in
      let o = check_login_allowed store h.lower h.limit req.username ip at.checked_at k in
      after_check req ip o.0 (s, o.1)
