-- ===== src/Repository.antt =====
-- internal/repository/refresh_token.go: the statements on the table of refresh tokens.
pub mod Laws
pub mod Rbac
use go_user_system.Common.{String, Bool, ◌&&◌, Option, none, some}
use go_user_system.Common.Int.{ℤ, eq_ℤ}
use go_user_system.Common.Time.{Time}
use go_user_system.Model.{RefreshToken, Reason}
use go_user_system.Result.{Action, pure, ◌>>=◌, ◌>>◌}
use go_user_system.Database.{Database, is_none}

abbrev pub is_unrevoked : RefreshToken → Bool
is_unrevoked r = is_none r.revoked_at

-- The columns that `Updates` writes.
abbrev pub mark_revoked : Time → Reason → RefreshToken → RefreshToken
mark_revoked revoked_at reason r = record r {
  revoked_at = some revoked_at;
  revoked_reason = some reason;
}

abbrev pub mark_replaced : Time → Reason → Option String → RefreshToken → RefreshToken
mark_replaced revoked_at reason replaced_by_jti r = record r {
  revoked_at = some revoked_at;
  revoked_reason = some reason;
  replaced_by_jti = replaced_by_jti;
}

module _ (db : Database) where
  open db use {State, collates, first_token, update_tokens}

  abbrev pub has_jti : String → RefreshToken → Bool
  has_jti jti r = collates r.jti jti

  abbrev pub in_family : ℤ → String → RefreshToken → Bool
  in_family user_id family_id r = eq_ℤ r.user_id user_id && collates r.family_id family_id

  unfoldable pub create : RefreshToken → Action State ℤ
  create r = db.create_token r

  unfoldable pub find_by_jti_for_update : String → Action State RefreshToken
  find_by_jti_for_update jti = first_token (has_jti jti)

  unfoldable pub revoke_by_jti : String → Time → Reason → Option String → Action State (Unit {0})
  revoke_by_jti jti revoked_at reason replaced_by_jti = do
    update_tokens (λ r. has_jti jti r && is_unrevoked r)
        (mark_replaced revoked_at reason replaced_by_jti)
    pure tt

  unfoldable pub revoke_family : ℤ → String → Time → Reason → Action State (Unit {0})
  revoke_family user_id family_id revoked_at reason = do
    update_tokens (λ r. in_family user_id family_id r && is_unrevoked r)
        (mark_revoked revoked_at reason)
    pure tt

  unfoldable pub revoke_all_by_user_id : ℤ → Time → Reason → Action State (Unit {0})
  revoke_all_by_user_id user_id revoked_at reason = do
    update_tokens (λ r. eq_ℤ r.user_id user_id && is_unrevoked r) (mark_revoked revoked_at reason)
    pure tt
