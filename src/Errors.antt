-- ===== src/Errors.antt =====
-- The errors that the layers hand to one another: internal/apperror/app_error.go,
-- internal/response/code.go, internal/service/errors.go and the error variables of
-- internal/auth/token_manager.go.
pub mod Codes
pub use Codes.{Code}
use go_user_system.Common.{ℕ, String, Bool, true, false, ◌||◌, Option, none, some}

-- The *AppError variables of internal/service/errors.go. Two of them are one error exactly when
-- they are one variable, as with the pointers that the source compares.
pub data Sentinel : Type 0 where
  username_too_short password_too_short_or_too_long username_already_exists : Sentinel
  user_not_found user_password_no_difference old_password_incorrect user_disabled : Sentinel
  invalid_credentials invalid_user_id nickname_too_long nickname_empty : Sentinel
  database_not_initialized refresh_token_invalid refresh_token_expired : Sentinel
  refresh_token_revoked refresh_token_replay access_session_invalid login_rate_limited : Sentinel
  permission_denied role_not_found : Sentinel

-- The errors of internal/auth/token_manager.go, and those of package jwt that callers tell apart.
pub data TokenError : Type 0 where
  access_token_invalid refresh_token_invalid jwt_secret_too_short jwt_issuer_empty : TokenError
  jwt_expire_invalid token_user_invalid token_username_invalid token_type_invalid : TokenError
  token_jti_invalid token_version_invalid : TokenError
  malformed signature_invalid expired : TokenError
  rejected : TokenError

-- `app` is `apperror.New` away from errors.go, `app_wrap` is `apperror.Wrap` with a cause, and
-- `wrapped` is `fmt.Errorf` with `%w`. `external` is any other error of a library.
pub data Error : Type 0 where
  sentinel : Sentinel → Error
  app : ℕ → Code → String → Error
  app_wrap : ℕ → Code → String → Error → Error
  wrapped : String → Error → Error
  token : TokenError → Error
  record_not_found repository_role_not_found : Error
  admin_already_bootstrapped rbac_not_initialized : Error
  external : String → Error

pub record AppError : Type 0 where
  pub http_status : ℕ
  pub code : Code
  pub message : String
  pub cause : Option Error

abbrev pub sentinel_app_error : Sentinel → AppError
sentinel_app_error s = elim s [
  | username_too_short ↦ fresh 400 Code.invalid_params "username too short"
  | password_too_short_or_too_long ↦
      fresh 400 Code.invalid_params
        "password must contain at least 12 characters and no more than 72 UTF-8 bytes"
  | username_already_exists ↦ fresh 409 Code.username_already_exists "username already exists"
  | user_not_found ↦ fresh 404 Code.user_not_found "username not found"
  | user_password_no_difference ↦
      fresh 409 Code.user_password_no_difference "user password no difference"
  | old_password_incorrect ↦
      fresh 409 Code.user_password_no_difference "user entered the old password incorrectly"
  | user_disabled ↦ fresh 403 Code.user_disabled "user disabled"
  | invalid_credentials ↦ fresh 401 Code.login_failed "username or password incorrect"
  | invalid_user_id ↦ fresh 400 Code.invalid_params "invalid user id"
  | nickname_too_long ↦ fresh 400 Code.nickname_invalid "nickname too long"
  | nickname_empty ↦ fresh 400 Code.nickname_invalid "nickname is empty"
  | database_not_initialized ↦ fresh 500 Code.database_not_initialized "database is not initialized"
  | Sentinel.refresh_token_invalid ↦ fresh 401 Code.refresh_token_invalid "refresh token is invalid"
  | refresh_token_expired ↦ fresh 401 Code.refresh_token_expired "refresh token is expired"
  | refresh_token_revoked ↦ fresh 401 Code.refresh_token_revoked "refresh token has been revoked"
  | refresh_token_replay ↦ fresh 401 Code.refresh_token_revoked "refresh token replay detected"
  | access_session_invalid ↦ fresh 401 Code.token_invalid "access session is invalid"
  | login_rate_limited ↦ fresh 429 Code.login_rate_limited "too many login attempts"
  | permission_denied ↦ fresh 403 Code.permission_denied "permission denied"
  | role_not_found ↦ fresh 404 Code.role_not_found "role not found"
]
  where
    fresh : ℕ → Code → String → AppError
    fresh status code message = record {
      http_status = status;
      code = code;
      message = message;
      cause = none;
    }

-- `apperror.FromError`: the first AppError on the chain of causes.
unfoldable pub from_error : Error → Option AppError
from_error (sentinel s) = some (sentinel_app_error s)
from_error (app status code message) =
    some (record { http_status = status; code = code; message = message; cause = none })
from_error (app_wrap status code message cause) =
    some (record { http_status = status; code = code; message = message; cause = some cause })
from_error (wrapped message cause) = from_error cause
from_error _ = none

-- `errors.Is`: the test is tried on the error and on each of its causes.
unfoldable pub error_is : (Error → Bool) → Error → Bool
error_is test (app_wrap status code message cause) =
    test (app_wrap status code message cause) || error_is test cause
error_is test (wrapped message cause) = test (wrapped message cause) || error_is test cause
error_is test e = test e

-- `err == gorm.ErrRecordNotFound`
abbrev pub equals_record_not_found : Error → Bool
equals_record_not_found record_not_found = true
equals_record_not_found _ = false

-- `err == repository.ErrRoleNotFound`
abbrev pub equals_role_not_found : Error → Bool
equals_role_not_found repository_role_not_found = true
equals_role_not_found _ = false

-- `err == service.ErrInvalidCredentials`
abbrev pub equals_invalid_credentials : Error → Bool
equals_invalid_credentials (sentinel invalid_credentials) = true
equals_invalid_credentials _ = false
