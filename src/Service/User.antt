-- ===== src/Service/User.antt =====
-- internal/service/user.go and user_interface.go: accounts. The clock's reading is an argument.
pub mod Register
pub mod Login
pub mod Password
pub mod Profile
mod Tests
use Prim.Native.String.{len, count}
use go_user_system.Common.{
  String, Bool, true, false, ◌||◌, not, Option, none, some, if◌then◌else◌, str_eq, ltb,
}
use go_user_system.Common.Int.{ℤ, pos, leb_ℤ, eq_ℤ}
use go_user_system.Common.Text.{trim_space, is_empty}
use go_user_system.Common.Time.{Time}
use go_user_system.Errors.{
  Error, sentinel, app_wrap, Code, Sentinel, error_is, equals_record_not_found,
}
use go_user_system.Model.{User, user_status_active, role_code_user, password_change}
use go_user_system.Result.{
  Result, ok, err, Action, pure, raise, raise_if, on_error, attempt, lift, map_error, ◌>>=◌, ◌>>◌,
}
use go_user_system.Database.{Database}
use go_user_system.Dao.{
  create_user, get_user_by_username, get_user_by_id, get_user_by_id_for_update,
  update_nickname_by_id, update_last_login_at_by_id, update_user_password_by_user_id,
}
use go_user_system.Repository.{revoke_all_by_user_id}
use go_user_system.Repository.Rbac.{assign_role_to_user_by_code}

-- Package bcrypt: a hash of a password, with the salt that this call draws, and the comparison.
pub record Bcrypt : Type 0 where
  pub generate : String → Result String
  pub matches : String → String → Bool

-- The parts of a UserService that may be nil.
pub record UserService : Type 0 where
  pub initialized : Bool
  pub has_refresh_repo : Bool
  pub has_rbac_repo : Bool

abbrev pub is_bad_password : String → Bool
is_bad_password password = ltb (count password) 12 || ltb 72 (len password)

abbrev pub register_failed : Error → Error
register_failed cause = app_wrap 500 Code.register_failed "注册失败" cause

abbrev pub login_failed : Error → Error
login_failed cause = app_wrap 500 Code.login_failed "登录错误" cause

abbrev pub password_failed : Error → Error
password_failed cause = app_wrap 500 Code.update_user_password_failed "修改密码失败" cause

abbrev pub nickname_failed : Error → Error
nickname_failed cause = app_wrap 500 Code.update_nickname_failed "更改昵称失败" cause

abbrev pub login_error : Error → Error
login_error e =
    if error_is equals_record_not_found e
    then sentinel Sentinel.invalid_credentials
    else login_failed e

abbrev pub profile_error : Error → Error
profile_error e =
    if error_is equals_record_not_found e
    then sentinel Sentinel.user_not_found
    else app_wrap 500 Code.get_profile_failed "获取用户信息失败" e

abbrev pub nickname_error : Error → Error
nickname_error e =
    if error_is equals_record_not_found e
    then sentinel Sentinel.user_not_found
    else nickname_failed e

-- The row that a registration creates; the database sets its id and its version.
abbrev pub new_user : String → String → User
new_user username hash = record {
  id = pos 0;
  username = username;
  password_hash = hash;
  nickname = username;
  status = user_status_active;
  auth_version = pos 0;
  last_login_at = none;
  deleted_at = none;
}

module _ (db : Database) where
  open db use {State}

  abbrev pub validate_password : String → Action State (Unit {0})
  validate_password password =
      raise_if (is_bad_password password) (sentinel Sentinel.password_too_short_or_too_long)

  -- What `Register` makes of the look-up of the name.
  abbrev pub refuse_known : Result User → Action State (Unit {0})
  refuse_known (ok u) = raise (sentinel Sentinel.username_already_exists)
  refuse_known (err e) = raise_if (not (error_is equals_record_not_found e)) (register_failed e)

  unfoldable pub create_with_role : User → Action State (Unit {0})
  create_with_role u = do id ← create_user db u; assign_role_to_user_by_code db id role_code_user

  -- The last statement of the transaction of `UpdateUserPassword`.
  unfoldable pub revoke_sessions : Bool → ℤ → Time → Action State (Unit {0})
  revoke_sessions has_refresh_repo user_id now =
      if has_refresh_repo
      then (do
        on_error password_failed (revoke_all_by_user_id db user_id now password_change)
        pure tt)
      else pure tt

module _ (db : Database) (bcrypt : Bcrypt) where
  open db use {State}

  unfoldable pub password_body : Bool → ℤ → String → String → Time → Action State (Unit {0})
  password_body has_refresh_repo user_id old_password new_password now = do
    user ← on_error (λ _. sentinel Sentinel.user_not_found) (get_user_by_id_for_update db user_id)
    raise_if (not (bcrypt.matches user.password_hash old_password))
        (sentinel Sentinel.old_password_incorrect)
    validate_password db new_password
    hash ←
        lift (map_error (λ _. sentinel Sentinel.invalid_credentials) (bcrypt.generate new_password))
    on_error password_failed (update_user_password_by_user_id db user_id user.password_hash hash)
    revoke_sessions db has_refresh_repo user_id now

module _ (db : Database) (bcrypt : Bcrypt) (svc : UserService) where
  open db use {State}

  abbrev pub ensure_db : Action State (Unit {0})
  ensure_db = raise_if (not svc.initialized) (sentinel Sentinel.database_not_initialized)

  unfoldable pub register : String → String → Action State (Unit {0})
  register name password = do
    let username = trim_space name
    raise_if (ltb (len username) 3) (sentinel Sentinel.username_too_short)
    validate_password db password
    ensure_db
    found ← attempt (get_user_by_username db username)
    refuse_known db found
    hash ← lift (map_error register_failed (bcrypt.generate password))
    if not svc.has_rbac_repo
        then (do on_error register_failed (create_user db (new_user username hash)); pure tt)
        else on_error register_failed
            (db.transaction (Unit {0}) (create_with_role db (new_user username hash)))

  unfoldable pub login : String → String → Time → Action State User
  login name password now = do
    let username = trim_space name
    ensure_db
    user ← on_error login_error (get_user_by_username db username)
    raise_if (not (bcrypt.matches user.password_hash password))
        (sentinel Sentinel.invalid_credentials)
    raise_if (not (eq_ℤ user.status user_status_active)) (sentinel Sentinel.invalid_credentials)
    on_error login_failed (update_last_login_at_by_id db user.id now)
    pure (record user { last_login_at = some now })

  unfoldable pub get_profile : ℤ → Action State User
  get_profile user_id = do
    raise_if (leb_ℤ user_id (pos 0)) (sentinel Sentinel.invalid_user_id)
    ensure_db
    user ← on_error profile_error (get_user_by_id db user_id)
    raise_if (not (eq_ℤ user.status user_status_active)) (sentinel Sentinel.user_disabled)
    pure user

  unfoldable pub update_nickname : ℤ → String → Action State (Unit {0})
  update_nickname user_id given = do
    raise_if (leb_ℤ user_id (pos 0)) (sentinel Sentinel.invalid_user_id)
    let nickname = trim_space given
    raise_if (is_empty nickname) (sentinel Sentinel.nickname_empty)
    raise_if (ltb 64 (len nickname)) (sentinel Sentinel.nickname_too_long)
    ensure_db
    user ← on_error nickname_error (get_user_by_id db user_id)
    if str_eq user.nickname nickname then pure tt else (do
      raise_if (not (eq_ℤ user.status user_status_active)) (sentinel Sentinel.user_disabled)
      on_error nickname_failed (update_nickname_by_id db user_id nickname)
      pure tt)

  unfoldable pub update_user_password : ℤ → String → String → Time → Action State (Unit {0})
  update_user_password user_id old_password new_password now = do
    raise_if (leb_ℤ user_id (pos 0)) (sentinel Sentinel.invalid_user_id)
    ensure_db
    raise_if (str_eq old_password new_password) (sentinel Sentinel.user_password_no_difference)
    db.transaction (Unit {0})
        (password_body db bcrypt svc.has_refresh_repo user_id old_password new_password now)
