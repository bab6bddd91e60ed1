-- ===== src/Repository/Rbac.antt =====
-- internal/repository/rbac.go: roles, permissions, and who has which.
use go_user_system.Common.{String, Bool, ◌&&◌, List, [], ◌∷◌, map, ltb, if◌then◌else◌, length}
use go_user_system.Common.Int.{ℤ, eq_ℤ}
use go_user_system.Errors.{Error, repository_role_not_found, error_is, equals_record_not_found}
use go_user_system.Model.{Role, Permission, UserRole}
use go_user_system.Result.{Action, pure, on_error, ◌>>=◌, ◌>>◌}
use go_user_system.Database.{Database}

abbrev pub role_error : Error → Error
role_error e = if error_is equals_record_not_found e then repository_role_not_found else e

abbrev pub user_role : ℤ → Role → UserRole
user_role user_id role = record { user_id = user_id; role_id = role.id }

module _ (db : Database) (distinct : List String → List String) where
  open db use {State}

  -- `SELECT DISTINCT code … ORDER BY code ASC`; `distinct` is what MySQL makes of the codes.
  unfoldable pub list_user_role_codes : ℤ → Action State (List String)
  list_user_role_codes user_id = do
    roles ← db.join_roles (λ ur r. eq_ℤ ur.user_id user_id)
    pure (distinct (map (λ r. r.code) roles))

  unfoldable pub list_user_permission_codes : ℤ → Action State (List String)
  list_user_permission_codes user_id = do
    permissions ← db.join_permissions (λ ur p. eq_ℤ ur.user_id user_id)
    pure (distinct (map (λ p. p.code) permissions))

module _ (db : Database) where
  open db use {State, collates}

  unfoldable pub find_role_by_code : String → Action State Role
  find_role_by_code role_code = on_error role_error (db.first_role (λ r. collates r.code role_code))

  unfoldable pub assign_role_to_user_by_code : ℤ → String → Action State (Unit {0})
  assign_role_to_user_by_code user_id role_code = do
    role ← find_role_by_code role_code
    db.first_or_create_user_role (user_role user_id role)

  unfoldable pub user_has_permission : ℤ → String → Action State Bool
  user_has_permission user_id permission_code = do
    reached ←
        db.join_permissions (λ ur p. eq_ℤ ur.user_id user_id && collates p.code permission_code)
    pure (ltb 0 (length reached))

  unfoldable pub list_roles : Action State (List Role)
  list_roles = db.find_roles

  unfoldable pub list_permissions : Action State (List Permission)
  list_permissions = db.find_permissions

  -- The first loop of `ReplaceUserRolesByCodes`.
  unfoldable pub find_roles_by_codes : List String → Action State (List Role)
  find_roles_by_codes [] = pure []
  find_roles_by_codes (role_code ∷ role_codes) = do
    role ← find_role_by_code role_code
    roles ← find_roles_by_codes role_codes
    pure (role ∷ roles)

  -- The second loop.
  unfoldable pub create_user_roles : ℤ → List Role → Action State (Unit {0})
  create_user_roles user_id [] = pure tt
  create_user_roles user_id (role ∷ roles) = do
    db.create_user_role (user_role user_id role)
    create_user_roles user_id roles

  unfoldable pub replace_user_roles_by_codes : ℤ → List String → Action State (Unit {0})
  replace_user_roles_by_codes user_id role_codes = do
    roles ← find_roles_by_codes role_codes
    db.delete_user_roles (λ ur. eq_ℤ ur.user_id user_id)
    create_user_roles user_id roles
