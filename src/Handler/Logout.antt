-- ===== src/Handler/Logout.antt =====
-- internal/handler/user_handler.go: `LogoutHandler`. It revokes the access token of the request, if
-- there is one that is valid, and then the refresh token.
pub mod Ended
pub mod Session
pub mod Total
mod Tests
use go_user_system.Common.{String, not, Option, none, some, if◌then◌else◌}
use go_user_system.Common.Int.{eq_ℤ}
use go_user_system.Common.Text.{trim_space, is_empty}
use go_user_system.Common.Time.{Time}
use go_user_system.Errors.{Code}
use go_user_system.Result.{Result, ok, err}
use go_user_system.Token.{UserClaims, parse_access_token, parse_refresh_token}
use go_user_system.Service.Access.{revoke_access}
use go_user_system.Service.Auth.{revoke_refresh_token}
use go_user_system.Middleware.{Reply, handle_error, bearer}
use go_user_system.Handler.{
  UserHandler, Cookie, kept, cleared, reply, request_refresh_token, parse_error_reply,
}

-- A failure, with what it does to the cookie; a success; or a nil pointer that is read.
pub data LogoutAnswer (Text : Type 0) : Type 0 where
  failed : Cookie Text → Reply → LogoutAnswer Text
  logged_out : LogoutAnswer Text
  panicked : LogoutAnswer Text

-- The readings of the clock: at the two parsings, by the service and by the store at the
-- revocation of the access token, and by the service at that of the refresh token.
pub record LogoutMoment : Type 0 where
  pub parsed_at : Time
  pub access_parsed_at : Time
  pub revoking_at : Time
  pub stored_at : Time
  pub ended_at : Time

abbrev pub claims_or_none : Result UserClaims → Option UserClaims
claims_or_none (ok claims) = some claims
claims_or_none (err e) = none

module _ (h : UserHandler) (at : LogoutMoment) where
  open h use {db, store, jwt}

  abbrev pub Both : Type 0
  Both = db.State × store.State

  abbrev pub Ending : Type 0
  Ending = LogoutAnswer jwt.Text × Both

  abbrev pub claims_of_text : Option String → Option UserClaims
  claims_of_text none = none
  claims_of_text (some text) =
      claims_or_none (parse_access_token jwt h.manager (h.text_of text) at.access_parsed_at)

  abbrev pub optional_access_token : String → Option UserClaims
  optional_access_token header = claims_of_text (bearer (trim_space header))

  abbrev pub after_refresh : Result (Unit {0}) → Both → Ending
  after_refresh (err e) s = (failed kept (handle_error e Code.refresh_token_invalid "退出登录失败"), s)
  after_refresh (ok tt) s = (logged_out, s)

  abbrev pub end_refresh : String → UserClaims → Both → Ending
  end_refresh value claims (s, k) =
      let o =
        revoke_refresh_token db h.initialized claims.user_id claims.jti
          (h.hash_token (h.text_of value)) at.ended_at s in
      after_refresh o.0 (o.1, k)

  abbrev pub after_access : String → UserClaims → Result (Unit {0}) → Both → Ending
  after_access value claims (err e) s =
      (failed kept (handle_error e Code.auth_state_unavailable "吊销 access token 失败"), s)
  after_access value claims (ok tt) s = end_refresh value claims s

  abbrev pub end_access : String → UserClaims → String → Option Time → Both → Ending
  end_access value claims jti none s = (panicked, s)
  end_access value claims jti (some expires_at) s =
      let o = revoke_access db store jti expires_at at.revoking_at at.stored_at s in
      after_access value claims o.0 o.1

  abbrev pub with_access : String → UserClaims → Option UserClaims → Both → Ending
  with_access value claims none s = end_refresh value claims s
  with_access value claims (some access) s =
      if not (eq_ℤ access.user_id claims.user_id)
      then (
        failed kept (reply 401 Code.token_invalid "access token does not match refresh token"),
        s,
      )
      else end_access value claims access.jti access.expires_at s

  abbrev pub with_claims : String → String → Result UserClaims → Both → Ending
  with_claims header value (err e) s = (failed cleared (parse_error_reply e), s)
  with_claims header value (ok claims) s = with_access value claims (optional_access_token header) s

  -- The body is what `bindOptionalJSON` reads, if it reads it.
  unfoldable pub logout_handler : String → Option String → Option String → Both → Ending
  logout_handler header cookie none s = (failed kept (reply 400 Code.invalid_params "参数错误"), s)
  logout_handler header cookie (some body) s =
      let value = request_refresh_token cookie body in
      if is_empty value
      then (failed cleared (reply 401 Code.refresh_token_invalid "refresh token is missing"), s)
      else with_claims header value
          (parse_refresh_token jwt h.manager (h.text_of value) at.parsed_at) s
