-- ===== src/Dao.antt =====
-- internal/dao/user.go: the statements on the table of users. `Update` by a condition writes to
-- every row that it selects; gorm adds `deleted_at IS NULL` to each condition (the statements of
-- the database have it).
pub mod Laws
use go_user_system.Common.{String, ℕ, Bool, ◌&&◌, not, Option, some, ◌==◌, if◌then◌else◌}
use go_user_system.Common.Int.{ℤ, pos, ◌+ℤ◌, eq_ℤ}
use go_user_system.Common.Time.{Time}
use go_user_system.Errors.{record_not_found}
use go_user_system.Model.{User, user_status_active, user_status_disabled}
use go_user_system.Result.{Action, pure, raise, raise_if, ◌>>=◌, ◌>>◌}
use go_user_system.Database.{Database}

-- `gorm.Expr("auth_version + 1")`, in the database's BIGINT; past its bound the statement is an
-- error of the database, which `broken` covers.
abbrev pub set_password : String → User → User
set_password hash u = record u { password_hash = hash; auth_version = u.auth_version +ℤ pos 1 }

abbrev pub has_id : ℤ → User → Bool
has_id id u = eq_ℤ u.id id

module _ (db : Database) where
  open db use {State, collates, first_user, update_users}

  unfoldable pub create_user : User → Action State ℤ
  create_user u = db.create_user u

  unfoldable pub get_user_by_username : String → Action State User
  get_user_by_username username = first_user (λ u. collates u.username username)

  unfoldable pub get_user_by_id : ℤ → Action State User
  get_user_by_id id = first_user (has_id id)

  -- The row stays locked until the transaction ends.
  unfoldable pub get_user_by_id_for_update : ℤ → Action State User
  get_user_by_id_for_update id = first_user (has_id id)

  unfoldable pub update_nickname_by_id : ℤ → String → Action State (Unit {0})
  update_nickname_by_id id nickname = do
    update_users (has_id id) (λ u. record u { nickname = nickname })
    pure tt

  unfoldable pub update_last_login_at_by_id : ℤ → Time → Action State (Unit {0})
  update_last_login_at_by_id id last_login_at = do
    update_users (has_id id) (λ u. record u { last_login_at = some last_login_at })
    pure tt

  abbrev pub has_hash_and_id : String → ℤ → User → Bool
  has_hash_and_id hash id u = collates u.password_hash hash && eq_ℤ u.id id

  unfoldable pub update_user_password_by_user_id : ℤ → String → String → Action State (Unit {0})
  update_user_password_by_user_id user_id old_password_hash new_password_hash = do
    affected ←
        update_users (has_hash_and_id old_password_hash user_id) (set_password new_password_hash)
    raise_if (not (affected == 1)) record_not_found

  unfoldable pub user_disabled : ℤ → Action State (Unit {0})
  user_disabled user_id = do
    update_users (λ u. eq_ℤ u.id user_id && eq_ℤ u.status user_status_active)
        (λ u. record u { status = user_status_disabled })
    pure tt
