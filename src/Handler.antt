-- ===== src/Handler.antt =====
-- internal/handler/user_handler.go: the renewal of a session. A handler ends with one answer, and
-- with what it does to the cookie of the refresh token. The session service is there, as the router
-- arranges; its clock and the fresh identifiers are arguments.
pub mod Refresh
pub mod Login
pub mod Logout
pub mod Account
pub mod Roles
pub mod Health
mod Tests
use go_user_system.Common.{ℕ, String, Bool, true, false, not, Option, none, some, if◌then◌else◌}
use go_user_system.Common.Int.{ℤ, pos}
use go_user_system.Common.Text.{trim_space, is_empty}
use go_user_system.Common.Time.{Time}
use go_user_system.Errors.{Error, app_wrap, Code, error_is}
use go_user_system.Model.{RefreshToken}
use go_user_system.Result.{Result, ok, err}
use go_user_system.Database.{Database}
use go_user_system.Token.{
  Jwt, TokenManager, UserClaims, IssuedToken, generate_access_token_issue, generate_refresh_token,
  parse_refresh_token,
}
use go_user_system.AuthState.Interface.{Store}
use go_user_system.Service.Access.{LoginRateLimit}
use go_user_system.Service.Auth.{rotate_refresh_token}
use go_user_system.Service.User.{Bcrypt, UserService}
use go_user_system.Middleware.{Reply, is_malformed, is_forged, is_expired, handle_error}

-- What a handler holds, with the parts of its two services. `initialized` says that the session
-- service has a database.
pub record UserHandler : Type 1 where
  pub db : Database
  pub store : Store
  pub jwt : Jwt
  pub manager : TokenManager
  pub bcrypt : Bcrypt
  pub users : UserService
  pub text_of : String → jwt.Text
  pub hash_token : jwt.Text → String
  pub lower : String → String
  pub limit : LoginRateLimit
  pub initialized : Bool

-- The cookie is left alone, cleared, or set to a token.
pub data Cookie (Text : Type 0) : Type 0 where
  kept cleared : Cookie Text
  sent : IssuedToken Text → Cookie Text

pub data Answer (Text : Type 0) : Type 0 where
  failed : Cookie Text → Reply → Answer Text
  refreshed : IssuedToken Text → IssuedToken Text → Answer Text

abbrev pub reply : ℕ → Code → String → Reply
reply status code message = record { status = status; code = code; message = message }

-- The token of the body, or else the one of the cookie.
abbrev pub cookie_text : Option String → String
cookie_text none = ""
cookie_text (some value) = trim_space value

abbrev pub request_refresh_token : Option String → String → String
request_refresh_token cookie body =
    if not (is_empty (trim_space body)) then trim_space body else cookie_text cookie

-- `handleRefreshTokenParseError`
abbrev pub parse_error_reply : Error → Reply
parse_error_reply e =
    if error_is is_expired e
    then reply 401 Code.refresh_token_expired "refresh token is expired"
    else if error_is is_malformed e
    then reply 401 Code.refresh_token_invalid "refresh token is malformed"
    else if error_is is_forged e
    then reply 401 Code.refresh_token_invalid "refresh token signature is invalid"
    else reply 401 Code.refresh_token_invalid "refresh token is invalid"

abbrev pub generate_failure : String → Error → Reply
generate_failure message cause =
    handle_error (app_wrap 500 Code.token_generate_failed message cause) Code.token_generate_failed
      message

abbrev pub refresh_token_model : {Text : Type 0} → ℤ → IssuedToken Text → String → RefreshToken
refresh_token_model user_id issued token_hash = record {
  id = pos 0;
  user_id = user_id;
  jti = issued.jti;
  family_id = issued.jti;
  token_hash = token_hash;
  expires_at = issued.expires_at;
  revoked_at = none;
  revoked_reason = none;
  replaced_by_jti = none;
}

-- The two fresh identifiers, and the readings of the clock: at the parsing, at the two tokens, and
-- the three of the service.
pub record Moment : Type 0 where
  pub access_jti : String
  pub refresh_jti : String
  pub parsed_at : Time
  pub access_at : Time
  pub refresh_at : Time
  pub requested : Time
  pub checked : Time
  pub written : Time

module _ (db : Database) (jwt : Jwt) (m : TokenManager) (text_of : String → jwt.Text)
    (hash_token : jwt.Text → String) (initialized : Bool) where
  open db use {State}
  open jwt use {Text}

  abbrev pub answer_rotation :
      IssuedToken Text → IssuedToken Text → Result (Unit {0}) × State → Answer Text × State
  answer_rotation access next (ok tt, s) = (refreshed access next, s)
  answer_rotation access next (err e, s) =
      (failed kept (handle_error e Code.refresh_token_invalid "刷新 token 失败"), s)

  abbrev pub rotate_to :
      Moment
      → String
      → UserClaims
      → IssuedToken Text
      → Result (IssuedToken Text)
      → State
      → Answer Text × State
  rotate_to at value claims access (err e) s =
      (failed kept (generate_failure "生成 refresh_token 失败" e), s)
  rotate_to at value claims access (ok next) s = answer_rotation access next (
      rotate_refresh_token db initialized claims.user_id claims.auth_version claims.jti
        (hash_token (text_of value))
        (some (refresh_token_model claims.user_id next (hash_token next.token_text))) at.requested
        at.checked at.written s)

  abbrev pub renew :
      Moment → String → UserClaims → Result (IssuedToken Text) → State → Answer Text × State
  renew at value claims (err e) s = (failed kept (generate_failure "生成 access_token 失败" e), s)
  renew at value claims (ok access) s =
      rotate_to at value claims access
        (generate_refresh_token jwt m claims.user_id claims.username claims.auth_version
          at.refresh_at at.refresh_jti)
        s

  abbrev pub with_claims : Moment → String → Result UserClaims → State → Answer Text × State
  with_claims at value (err e) s = (failed cleared (parse_error_reply e), s)
  with_claims at value (ok claims) s =
      renew at value claims
        (generate_access_token_issue jwt m claims.user_id claims.username claims.auth_version
          at.access_at at.access_jti)
        s

  -- The body is what `bindOptionalJSON` reads, if it reads it.
  unfoldable pub refresh_token_handler :
      Moment → Option String → Option String → State → Answer Text × State
  refresh_token_handler at cookie none s = (failed kept (reply 400 Code.invalid_params "参数错误"), s)
  refresh_token_handler at cookie (some body) s =
      let value = request_refresh_token cookie body in
      if is_empty value
      then (failed cleared (reply 401 Code.refresh_token_invalid "refresh token is missing"), s)
      else with_claims at value (parse_refresh_token jwt m (text_of value) at.parsed_at) s
