-- ===== src/Service/Rbac.antt =====
-- internal/service/rbac.go: permissions and roles of users.
pub mod Permissions
pub mod Codes
pub mod Roles
mod Tests
use go_user_system.Common.{
  String, Bool, true, false, not, List, [], ◌∷◌, ◌++◌, any, if◌then◌else◌, str_eq, ◌||◌,
}
use go_user_system.Common.Int.{ℤ, pos, leb_ℤ}
use go_user_system.Common.Text.{trim_space, is_empty, is_blank}
use go_user_system.Errors.{
  Error, sentinel, app_wrap, Code, error_is, equals_role_not_found, Sentinel, invalid_user_id,
}
use go_user_system.Model.{Role, Permission}
use go_user_system.Result.{
  Result, ok, err, Action, pure, raise, raise_if, on_error, lift, ◌>>=◌, ◌>>◌,
}
use go_user_system.Database.{Database}
use go_user_system.Repository.Rbac.{
  user_has_permission, list_user_role_codes, list_user_permission_codes,
  replace_user_roles_by_codes,
}
use go_user_system.Repository.Rbac

abbrev pub rbac_failed : String → Error → Error
rbac_failed message cause = app_wrap 500 Code.rbac_failed message cause

abbrev pub assign_error : Error → Error
assign_error e =
    if error_is equals_role_not_found e
    then sentinel Sentinel.role_not_found
    else rbac_failed "分配用户角色失败" e

abbrev pub is_nil : List String → Bool
is_nil [] = true
is_nil (x ∷ xs) = false

-- The loop of `AssignRolesToUser`; `seen` is the map of the codes so far, and the list of codes is
-- built from its front.
unfoldable pub normalize : (seen : List String) → List String → Result (List String)
normalize seen [] = ok []
normalize seen (given ∷ more) =
    let role_code = trim_space given in
    if is_empty role_code
    then err (sentinel Sentinel.role_not_found)
    else if any (str_eq role_code) seen
    then normalize seen more
    else put role_code (normalize (role_code ∷ seen) more)
  where
    put : String → Result (List String) → Result (List String)
    put role_code (ok codes) = ok (role_code ∷ codes)
    put role_code (err e) = err e

module _ (db : Database) (initialized : Bool) where
  open db use {State}

  abbrev pub ensure_db : Action State (Unit {0})
  ensure_db = raise_if (not initialized) (sentinel Sentinel.database_not_initialized)

  unfoldable pub has_permission : ℤ → String → Action State Bool
  has_permission user_id permission_code = do
    raise_if (leb_ℤ user_id (pos 0) || is_blank permission_code)
        (sentinel Sentinel.permission_denied)
    ensure_db
    on_error (rbac_failed "权限校验失败") (user_has_permission db user_id permission_code)

  unfoldable pub list_roles : Action State (List Role)
  list_roles = do ensure_db; on_error (rbac_failed "读取角色列表失败") (Rbac.list_roles db)

  unfoldable pub list_permissions : Action State (List Permission)
  list_permissions = do ensure_db; on_error (rbac_failed "读取权限列表失败") (Rbac.list_permissions db)

  unfoldable pub get_user_authorization :
      (distinct : List String → List String) → ℤ → Action State (List String × List String)
  get_user_authorization distinct user_id = do
    raise_if (leb_ℤ user_id (pos 0)) (sentinel invalid_user_id)
    ensure_db
    role_codes ← on_error (rbac_failed "读取用户角色失败") (list_user_role_codes db distinct user_id)
    permission_codes ←
        on_error (rbac_failed "读取用户权限失败") (list_user_permission_codes db distinct user_id)
    pure (role_codes, permission_codes)

  unfoldable pub assign_roles_to_user : ℤ → List String → Action State (Unit {0})
  assign_roles_to_user user_id role_codes = do
    raise_if (leb_ℤ user_id (pos 0)) (sentinel invalid_user_id)
    raise_if (is_nil role_codes) (sentinel Sentinel.role_not_found)
    ensure_db
    normalized ← lift (normalize [] role_codes)
    on_error assign_error
        (db.transaction (Unit {0}) (replace_user_roles_by_codes db user_id normalized))
