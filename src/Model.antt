-- ===== src/Model.antt =====
-- The rows of the database: internal/model/user.go, refresh_token.go and rbac.go. The columns
-- created_at and updated_at are left out: gorm fills them in and nothing reads them.
use go_user_system.Common.{String, Option, if◌then◌else◌}
use go_user_system.Common.Int.{ℤ, pos, eq_ℤ}
use go_user_system.Common.Time.{Time}

pub record User : Type 0 where
  pub id : ℤ
  pub username : String
  pub password_hash : String
  pub nickname : String
  pub status : ℤ
  pub auth_version : ℤ
  pub last_login_at : Option Time
  pub deleted_at : Option Time

abbrev pub user_status_active : ℤ
user_status_active = pos 1

abbrev pub user_status_disabled : ℤ
user_status_disabled = pos 2

-- The values of the constants RefreshTokenRevokedReason….
pub data Reason : Type 0 where
  rotated logout password_change replay_detected : Reason

pub record RefreshToken : Type 0 where
  pub id : ℤ
  pub user_id : ℤ
  pub jti : String
  pub family_id : String
  pub token_hash : String
  pub expires_at : Time
  pub revoked_at : Option Time
  pub revoked_reason : Option Reason
  pub replaced_by_jti : Option String

abbrev pub role_code_admin : String
role_code_admin = "admin"

abbrev pub role_code_user : String
role_code_user = "user"

abbrev pub permission_profile_read : String
permission_profile_read = "profile:read"

abbrev pub permission_profile_update : String
permission_profile_update = "profile:update"

abbrev pub permission_password_update : String
permission_password_update = "password:update"

abbrev pub permission_admin_roles_read : String
permission_admin_roles_read = "admin:roles:read"

abbrev pub permission_admin_perms_read : String
permission_admin_perms_read = "admin:permissions:read"

abbrev pub permission_admin_user_role_edit : String
permission_admin_user_role_edit = "admin:user_roles:update"

pub record Role : Type 0 where
  pub id : ℤ
  pub code : String
  pub name : String

pub record Permission : Type 0 where
  pub id : ℤ
  pub code : String
  pub name : String
  pub method : String
  pub path : String

pub record UserRole : Type 0 where
  pub user_id : ℤ
  pub role_id : ℤ

pub record RolePermission : Type 0 where
  pub role_id : ℤ
  pub permission_id : ℤ

-- The tags `default:1` of User: gorm leaves a zero status or version to the database.
unfoldable pub with_defaults : User → User
with_defaults u = record u {
  status = if eq_ℤ u.status (pos 0) then pos 1 else u.status;
  auth_version = if eq_ℤ u.auth_version (pos 0) then pos 1 else u.auth_version;
}
