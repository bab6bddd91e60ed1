-- ===== src/Handler/Tests.antt =====
-- Renewals on the reference database and the reference package jwt, and an instance of the theorem.
use go_user_system.Common.{String, true, false, Option, none, some, ◌≡◌, ◌≢◌, refl, [], ◌∷◌}
use go_user_system.Common.Int.{pos, ◌+ℤ◌}
use go_user_system.Common.Text.{trim_space}
use go_user_system.Errors.{error_is, from_error, Code}
use go_user_system.Model.{User, RefreshToken}
use go_user_system.Database.{Tables}
use go_user_system.Database.Reference.{reference}
use go_user_system.Dao.{get_user_by_id_for_update}
use go_user_system.Repository.{create, find_by_jti_for_update, revoke_by_jti, revoke_family}
use go_user_system.Token.{
  UserClaims, IssuedToken, TokenManager, claims_of, generate_token, generate_access_token_issue,
  generate_refresh_token, parse_token, parse_refresh_token,
}
use go_user_system.Token.Reference.{Sealed, sealing}
use go_user_system.Service.Auth.{
  reuse, exchange, present, present_token, rotate_body, rotate_refresh_token,
}
use go_user_system.Service.Auth.Calls.{perform, run}
use go_user_system.Middleware.{handle_error}
use go_user_system.Handler.{
  Answer, failed, refreshed, cleared, kept, reply, Moment, refresh_token_handler,
}
use go_user_system.Handler.Account
use go_user_system.Handler.Health.{HealthHandler, readyz_handler}
use go_user_system.Handler.Refresh.{refresh_token_handler-once}

unfoldable pub handlers : Unit {0}
unfolding get_user_by_id_for_update create find_by_jti_for_update revoke_by_jti revoke_family
    generate_token generate_access_token_issue generate_refresh_token parse_token
    parse_refresh_token reuse exchange present present_token rotate_body rotate_refresh_token
    perform run refresh_token_handler handle_error from_error error_is trim_space ◌+ℤ◌
handlers = tt

abbrev pub issuer : TokenManager
issuer = record {
  secret = "0123456789abcdef0123456789abcdef";
  issuer = "go-user-system";
  access_ttl = pos 900;
  refresh_ttl = pos 9000;
}

abbrev pub claims : UserClaims
claims = record {
  username = "fay";
  user_id = pos 3;
  token_type = "refresh";
  auth_version = pos 1;
  jti = "r1";
  issuer = "go-user-system";
  issued_at = some (pos 5);
  expires_at = some (pos 9005);
  id = "r1";
}

abbrev pub signed : String → Sealed
signed text = (record claims { jti = "" }, issuer.secret)

abbrev pub hash : Sealed → String
hash (c, key) = c.id

abbrev pub fay : User
fay = record {
  id = pos 3;
  username = "fay";
  password_hash = "h";
  nickname = "fay";
  status = pos 1;
  auth_version = pos 1;
  last_login_at = none;
  deleted_at = none;
}

abbrev pub session : RefreshToken
session = record {
  id = pos 1;
  user_id = pos 3;
  jti = "r1";
  family_id = "r1";
  token_hash = "r1";
  expires_at = pos 9005;
  revoked_at = none;
  revoked_reason = none;
  replaced_by_jti = none;
}

abbrev pub one_session : Tables
one_session = record {
  users = fay ∷ [];
  tokens = session ∷ [];
  roles = [];
  permissions = [];
  user_roles = [];
  role_permissions = [];
  next_user_id = pos 4;
  next_token_id = pos 2;
}

abbrev pub moment : Moment
moment = record {
  access_jti = "a2";
  refresh_jti = "r2";
  parsed_at = pos 10;
  access_at = pos 10;
  refresh_at = pos 10;
  requested = pos 10;
  checked = pos 10;
  written = pos 10;
}

abbrev pub access : IssuedToken Sealed
access = record {
  token_text = (
    claims_of sealing issuer (pos 3) "fay" (pos 1) "access" (pos 900) (pos 10) "a2",
    issuer.secret,
  );
  jti = "a2";
  token_type = "access";
  expires_at = pos 910;
}

abbrev pub next : IssuedToken Sealed
next = record {
  token_text = (
    claims_of sealing issuer (pos 3) "fay" (pos 1) "refresh" (pos 9000) (pos 10) "r2",
    issuer.secret,
  );
  jti = "r2";
  token_type = "refresh";
  expires_at = pos 9010;
}

abbrev pub ask : Option String → String → Tables → Answer Sealed × Tables
ask cookie body t =
    refresh_token_handler reference sealing issuer signed hash true moment cookie (some body) t

handler_tests :
    ((ask (some "x") "" one_session).0 ≡ refreshed access next)
    × ((ask none " " one_session).0
        ≡ failed cleared (reply 401 Code.refresh_token_invalid "refresh token is missing"))
    × ((ask (some "x") "" (ask (some "x") "" one_session).1).0
        ≡ failed kept (reply 401 Code.refresh_token_revoked "refresh token replay detected"))
unfolding handlers
handler_tests = (refl, refl, refl)

refresh_token_handler-once_example :
    (ask none "x" (run reference [] (ask (some "x") "" one_session).1)).0 ≢ refreshed access next
unfolding handlers
refresh_token_handler-once_example =
    refresh_token_handler-once reference sealing issuer signed hash true moment moment (some "x")
      none "" "x" claims claims access next access next [] one_session refl refl refl refl

abbrev healthy : HealthHandler
healthy = record {
  has_db = true;
  has_config = true;
  opens = true;
  pings = true;
  checkers = none ∷ some true ∷ [];
  has_recorder = true;
}

health_tests :
    (readyz_handler healthy none ≡ (Account.Answer.succeeded tt, some true))
    × (readyz_handler (record healthy { checkers = some false ∷ [] }) (some true) ≡ (
      Account.Answer.failed
          (reply 503 Code.readiness_failed "authentication state store is not ready"),
      some false,
    ))
unfolding readyz_handler
health_tests = (refl, refl)
