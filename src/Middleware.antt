-- ===== src/Middleware.antt =====
-- internal/middleware/auth_middleware.go, internal/middleware/permission_middleware.go and
-- internal/handler/error_handler.go: what a request must pass before its handler runs, and the
-- answer to an error. A middleware ends a request with a reply or lets it through.
pub mod Admission
mod Tests
use go_user_system.Common.{
  ℕ, String, Bool, true, false, ◌&&◌, ◌==◌, not, Option, none, some, if◌then◌else◌,
}
use go_user_system.Common.Int.{ℤ, pos, leb_ℤ}
use go_user_system.Common.Text.{trim_space, is_empty, is_blank, strip_prefix}
use go_user_system.Common.Time.{Time}
use go_user_system.Errors.{
  Error, AppError, Code, TokenError, token, malformed, signature_invalid, expired, error_is,
  from_error,
}
use go_user_system.Result.{Result, ok, err, Action}
use go_user_system.Database.{Database}
use go_user_system.AuthState.Interface.{Store}
use go_user_system.Token.{Jwt, TokenManager, UserClaims, parse_access_token}
use go_user_system.Service.Access.{validate_access_token}
use go_user_system.Service.Rbac.{has_permission}

-- `response.Fail`
pub record Reply : Type 0 where
  pub status : ℕ
  pub code : Code
  pub message : String

pub data Step (A : Type 0) : Type 0 where
  stopped : Reply → Step A
  passed : A → Step A

abbrev pub stop : {A : Type 0} → ℕ → Code → String → Step A
stop status code message = stopped (record { status = status; code = code; message = message })

-- The values that `AuthMiddleware` sets for the handlers.
pub record Identity : Type 0 where
  pub user_id : ℤ
  pub username : String
  pub access_token : String
  pub access_jti : String

abbrev pub identity_of : String → UserClaims → Identity
identity_of text claims = record {
  user_id = claims.user_id;
  username = claims.username;
  access_token = text;
  access_jti = claims.jti;
}

abbrev pub is_malformed : Error → Bool
is_malformed (token malformed) = true
is_malformed _ = false

abbrev pub is_forged : Error → Bool
is_forged (token signature_invalid) = true
is_forged _ = false

abbrev pub is_expired : Error → Bool
is_expired (token expired) = true
is_expired _ = false

abbrev pub parse_failure : {A : Type 0} → Error → Step A
parse_failure e =
    if error_is is_malformed e
    then stop 401 Code.token_malformed "token is malformed"
    else if error_is is_forged e
    then stop 401 Code.token_signature_invalid "token signature is invalid"
    else if error_is is_expired e
    then stop 401 Code.token_expired "token is expired"
    else stop 401 Code.token_invalid "invalid token"

abbrev pub app_failure : {A : Type 0} → Option AppError → Step A
app_failure none = stop 401 Code.token_invalid "invalid access session"
app_failure (some e) =
    if e.http_status == 503
    then stop e.http_status e.code e.message
    else stop 401 Code.token_invalid "invalid access session"

abbrev pub by_app_error : ℕ → Code → String → Option AppError → Reply
by_app_error status code message none = record { status = status; code = code; message = message }
by_app_error status code message (some e) = record {
  status = e.http_status;
  code = e.code;
  message = e.message;
}

-- `handleError`
unfoldable pub handle_error : Error → Code → String → Reply
handle_error e fallback_code fallback_message =
    by_app_error 500 fallback_code fallback_message (from_error e)

-- The text behind `Bearer `, if the header of the request has it.
abbrev pub trimmed : Option String → Option String
trimmed none = none
trimmed (some rest) = if is_empty (trim_space rest) then none else some (trim_space rest)

abbrev pub bearer : String → Option String
bearer header = trimmed (strip_prefix "Bearer " header)

abbrev pub format_message : String → String
format_message header = elim (strip_prefix "Bearer " header) [
  | none ↦ "invalid authorization Bearer"
  | some rest ↦ "invalid authorization header"
]

module _ (db : Database) (store : Store) (jwt : Jwt) (m : TokenManager)
    (text_of : String → jwt.Text) (initialized : Bool) where
  abbrev Both : Type 0
  Both = db.State × store.State

  abbrev pub after_validation : String → UserClaims → Result (Unit {0}) → Step Identity
  after_validation text claims (err e) = app_failure (from_error e)
  after_validation text claims (ok tt) = passed (identity_of text claims)

  abbrev pub validate_claims : String → Time → Result UserClaims → Both → Step Identity × Both
  validate_claims text at (err e) s = (parse_failure e, s)
  validate_claims text at (ok claims) s =
      let o = validate_access_token db store initialized (some claims) at s in
      (after_validation text claims o.0, o.1)

  abbrev pub with_text : Time → Time → String → Option String → Both → Step Identity × Both
  with_text now at header none s = (stop 401 Code.token_invalid_format (format_message header), s)
  with_text now at header (some text) s =
      validate_claims text at (parse_access_token jwt m (text_of text) now) s

  -- With a validator, as the router has it.
  unfoldable pub auth_middleware : Time → Time → String → Both → Step Identity × Both
  auth_middleware now at header s =
      if is_blank header
      then (stop 401 Code.token_missing "authorization header is empty", s)
      else with_text now at header (bearer header) s

module _ (db : Database) (initialized : Bool) where
  abbrev pub after_check : Result Bool → Step (Unit {0})
  after_check (err e) = stop 500 Code.rbac_failed "权限校验失败"
  after_check (ok false) = stop 403 Code.permission_denied "无权限访问"
  after_check (ok true) = passed tt

  -- The user's id is that of the context, if one was set.
  unfoldable pub require_permission : String → Option ℤ → db.State → Step (Unit {0}) × db.State
  require_permission permission_code none s =
      if is_blank permission_code
      then (stop 500 Code.rbac_failed "权限配置错误", s)
      else (stop 401 Code.token_user_missing "用户未认证", s)
  require_permission permission_code (some user_id) s =
      if is_blank permission_code
      then (stop 500 Code.rbac_failed "权限配置错误", s)
      else if leb_ℤ user_id (pos 0)
      then (stop 401 Code.token_user_invalid "无效的用户信息", s)
      else let o = has_permission db initialized user_id permission_code s in (after_check o.0, o.1)

abbrev pub pass_on : Identity → Step (Unit {0}) → Step Identity
pass_on id (stopped r) = stopped r
pass_on id (passed tt) = passed id

-- A route behind both, as router/router.go stacks them for the administration.
module _ (db : Database) (store : Store) (jwt : Jwt) (m : TokenManager)
    (text_of : String → jwt.Text) (initialized : Bool) where
  abbrev pub then_permission :
      String → Step Identity → db.State × store.State → Step Identity × (db.State × store.State)
  then_permission permission_code (stopped r) s = (stopped r, s)
  then_permission permission_code (passed id) (s, k) =
      let o = require_permission db initialized permission_code (some id.user_id) s in
      (pass_on id o.0, (o.1, k))

  unfoldable pub guarded :
      String
      → Time
      → Time
      → String
      → db.State × store.State
      → Step Identity × (db.State × store.State)
  guarded permission_code now at header s =
      let o = auth_middleware db store jwt m text_of initialized now at header s in
      then_permission permission_code o.0 o.1
