-- ===== src/Service/Bootstrap.antt =====
-- internal/service/bootstrap.go: the first administrator. The transaction is one step for others: it
-- locks the row of the role of administrators before it counts them.
pub mod Promised
pub mod Kept
pub mod First
mod Tests
use Prim.Native.String.{len}
use go_user_system.Common.{String, not, ltb}
use go_user_system.Common.Int.{eq_ℤ}
use go_user_system.Common.Text.{trim_space}
use go_user_system.Errors.{
  Error, sentinel, wrapped, error_is, equals_record_not_found, equals_role_not_found, Sentinel,
  rbac_not_initialized, admin_already_bootstrapped,
}
use go_user_system.Common.{Bool, if◌then◌else◌}
use go_user_system.Model.{User, role_code_admin, role_code_user}
use go_user_system.Result.{
  Result, ok, err, Action, raise, raise_if, on_error, attempt, lift, map_error, ◌>>=◌, ◌>>◌,
}
use go_user_system.Database.{Database}
use go_user_system.Dao.{create_user, get_user_by_username}
use go_user_system.Repository.Rbac.{assign_role_to_user_by_code}
use go_user_system.Service.User.{Bcrypt, UserService, new_user, validate_password}

abbrev pub lock_error : Error → Error
lock_error e =
    if error_is equals_record_not_found e
    then rbac_not_initialized
    else wrapped "lock administrator role" e

abbrev pub user_role_error : Error → Error
user_role_error e =
    if error_is equals_role_not_found e then rbac_not_initialized else wrapped "assign user role" e

module _ (db : Database) where
  open db use {State, collates}

  abbrev pub refuse_known : Result User → Action State (Unit {0})
  refuse_known (ok u) = raise (sentinel Sentinel.username_already_exists)
  refuse_known (err e) =
      raise_if (not (error_is equals_record_not_found e)) (wrapped "check administrator username" e)

  unfoldable pub create_admin : User → Action State (Unit {0})
  create_admin user = do
    id ← on_error (wrapped "create administrator") (create_user db user)
    on_error user_role_error (assign_role_to_user_by_code db id role_code_user)
    on_error (wrapped "assign administrator role")
        (assign_role_to_user_by_code db id role_code_admin)

  -- The function that `BootstrapAdmin` hands to the transaction.
  unfoldable pub bootstrap_body : User → Action State (Unit {0})
  bootstrap_body user = do
    admin_role ← on_error lock_error (db.first_role (λ r. collates r.code role_code_admin))
    admin_count ←
        on_error (wrapped "count administrators")
          (db.count_user_roles (λ ur. eq_ℤ ur.role_id admin_role.id))
    raise_if (ltb 0 admin_count) admin_already_bootstrapped
    found ← attempt (get_user_by_username db user.username)
    refuse_known found
    create_admin user

  unfoldable pub bootstrap_admin : Bcrypt → UserService → String → String → Action State (Unit {0})
  bootstrap_admin bcrypt svc name password = do
    let username = trim_space name
    raise_if (ltb (len username) 3) (sentinel Sentinel.username_too_short)
    validate_password db password
    raise_if (not svc.initialized) (sentinel Sentinel.database_not_initialized)
    raise_if (not svc.has_rbac_repo) rbac_not_initialized
    hash ← lift (map_error (wrapped "hash administrator password") (bcrypt.generate password))
    db.transaction (Unit {0}) (bootstrap_body (new_user username hash))
