-- ===== src/Service/Access.antt =====
-- internal/service/auth.go: access tokens and the limits of logins, over the database and over the
-- store of internal/authstate. The state of a call is that of both. The clock's readings are
-- arguments: that of the service, and that of the store.
pub mod Validation
pub mod Revoked
pub mod Lapse
pub mod InRedis
mod Tests
use go_user_system.Common.{String, Bool, true, false, ◌||◌, not, Option, none, some, if◌then◌else◌}
use go_user_system.Common.Int.{ℤ, pos, leb_ℤ, eq_ℤ}
use go_user_system.Common.Text.{is_blank, trim_space}
use go_user_system.Common.Time.{Time, Duration, sub}
use go_user_system.Errors.{Error, sentinel, error_is, equals_record_not_found, Sentinel}
use go_user_system.Model.{User, user_status_active}
use go_user_system.Result.{Result, Action, pure, raise, raise_if, on_error, ◌>>=◌, ◌>>◌}
use go_user_system.Database.{Database}
use go_user_system.Dao.{get_user_by_id}
use go_user_system.Token.{UserClaims}
use go_user_system.AuthState.Interface.{Store, LoginAttempt}
use go_user_system.Service.Auth.{auth_state_unavailable, auth_state_missing}

pub record LoginRateLimit : Type 0 where
  pub account_limit : ℤ
  pub ip_limit : ℤ
  pub window : Duration

abbrev pub access_invalid : Error
access_invalid = sentinel Sentinel.access_session_invalid

abbrev pub user_error : Error → Error
user_error e =
    if error_is equals_record_not_found e
    then access_invalid
    else auth_state_unavailable "读取用户认证状态失败" e

abbrev pub is_bad_claims : UserClaims → Bool
is_bad_claims c = leb_ℤ c.user_id (pos 0) || leb_ℤ c.auth_version (pos 0) || is_blank c.jti

abbrev pub is_bad_limit : LoginRateLimit → Bool
is_bad_limit l = leb_ℤ l.account_limit (pos 0) || leb_ℤ l.ip_limit (pos 0) || leb_ℤ l.window (pos 0)

abbrev pub left_action : {S M A : Type 0} → Action S A → Action (S × M) A
left_action act (s, m) = ((act s).0, ((act s).1, m))

abbrev pub right_action : {S M A : Type 0} → Action M A → Action (S × M) A
right_action act (s, m) = ((act m).0, (s, (act m).1))

-- `lower` is `strings.ToLower`, whose tables of characters are an argument.
module _ (lower : String → String) where
  abbrev pub normalize_account : String → String
  normalize_account account = lower (trim_space account)

module _ (db : Database) (store : Store) where
  abbrev Both : Type 0
  Both = db.State × store.State

  abbrev pub check_user : UserClaims → User → Action Both (Unit {0})
  check_user claims user =
      raise_if
        (not (eq_ℤ user.status user_status_active)
          || not (eq_ℤ user.auth_version claims.auth_version))
        access_invalid

  unfoldable pub validate_access_token : Bool → Option UserClaims → Time → Action Both (Unit {0})
  validate_access_token initialized none at = do
    raise_if (not initialized) (sentinel Sentinel.database_not_initialized)
    raise access_invalid
  validate_access_token initialized (some claims) at = do
    raise_if (not initialized) (sentinel Sentinel.database_not_initialized)
    raise_if (is_bad_claims claims) access_invalid
    user ← on_error user_error (left_action (get_user_by_id db claims.user_id))
    check_user claims user
    revoked ←
        on_error (auth_state_unavailable "读取 access token 吊销状态失败")
          (right_action (store.is_revoked claims.jti at))
    raise_if revoked access_invalid

  -- The store is there, as the constructor arranges.
  unfoldable pub revoke_access : String → Time → Time → Time → Action Both (Unit {0})
  revoke_access jti expires_at now at = do
    raise_if (is_blank jti) access_invalid
    if leb_ℤ (sub expires_at now) (pos 0)
        then pure tt
        else on_error (auth_state_unavailable "吊销 access token 失败")
            (right_action (store.revoke jti (sub expires_at now) at))

module _ (store : Store) (lower : String → String) (limit : LoginRateLimit) where
  open store use {State}

  abbrev pub ensure_rate_limiter : Action State (Unit {0})
  ensure_rate_limiter = raise_if (is_bad_limit limit) (auth_state_missing "登录限流未初始化")

  abbrev pub login_attempt : String → String → LoginAttempt
  login_attempt account ip = record {
    account = normalize_account lower account;
    ip = trim_space ip;
    account_limit = limit.account_limit;
    ip_limit = limit.ip_limit;
    window = limit.window;
  }

  unfoldable pub check_login_allowed : String → String → Time → Action State Duration
  check_login_allowed account ip at = do
    ensure_rate_limiter
    on_error (auth_state_unavailable "读取登录限流状态失败") (store.check_limit (login_attempt account ip) at)

  unfoldable pub record_failed_login : String → String → Time → Action State Duration
  record_failed_login account ip at = do
    ensure_rate_limiter
    on_error (auth_state_unavailable "记录登录失败次数失败")
        (store.record_failure (login_attempt account ip) at)

  unfoldable pub reset_login_failures : String → Time → Action State (Unit {0})
  reset_login_failures account at = do
    ensure_rate_limiter
    on_error (auth_state_unavailable "清理登录失败次数失败")
        (store.reset_account (normalize_account lower account) at)
