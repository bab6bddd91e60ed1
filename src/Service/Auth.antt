-- ===== src/Service/Auth.antt =====
-- internal/service/auth.go: refresh tokens. A call reads the clock up to three times, and the
-- readings are its arguments, in order. A transaction is one step for other calls: it holds the
-- locks on the user's row and on the token's row that it reads.
pub mod Rotation
pub mod Sessions
pub mod Logout
pub mod Stored
pub mod Spent
pub mod Calls
pub mod Reuse
pub mod Single
pub mod LoggedOut
pub mod Closed
pub mod Theft
mod Tests
use go_user_system.Common.{
  String, Bool, true, false, ◌&&◌, ◌||◌, not, Option, none, some, if◌then◌else◌, str_eq,
}
use go_user_system.Common.Int.{ℤ, pos, leb_ℤ, eq_ℤ}
use go_user_system.Common.Text.{is_empty}
use go_user_system.Common.Time.{Time, after}
use go_user_system.Errors.{
  Error, sentinel, app, app_wrap, Code, error_is, equals_record_not_found, Sentinel,
  database_not_initialized, refresh_token_expired, refresh_token_revoked, refresh_token_replay,
  invalid_user_id,
}
use go_user_system.Model.{
  User, RefreshToken, Reason, rotated, logout, password_change, replay_detected, user_status_active,
}
use go_user_system.Result.{Action, pure, raise, raise_if, on_error, ◌>>=◌, ◌>>◌}
use go_user_system.Database.{Database}
use go_user_system.Dao.{get_user_by_id_for_update}
use go_user_system.Repository.{
  create, find_by_jti_for_update, revoke_by_jti, revoke_family, revoke_all_by_user_id,
}

-- `authStateUnavailable` with a cause, and without one.
abbrev pub auth_state_unavailable : String → Error → Error
auth_state_unavailable message cause = app_wrap 503 Code.auth_state_unavailable message cause

abbrev pub auth_state_missing : String → Error
auth_state_missing message = app 503 Code.auth_state_unavailable message

abbrev pub refresh_token_failure : String → Error → Error
refresh_token_failure message cause = app_wrap 500 Code.refresh_token_invalid message cause

abbrev pub locked_user_error : Error → Error
locked_user_error e =
    if error_is equals_record_not_found e
    then sentinel Sentinel.refresh_token_invalid
    else auth_state_unavailable "读取用户认证状态失败" e

abbrev pub find_token_error : Error → Error
find_token_error e =
    if error_is equals_record_not_found e
    then sentinel Sentinel.refresh_token_invalid
    else refresh_token_failure "读取 refresh token 失败" e

abbrev pub is_rotated : Option Reason → Bool
is_rotated (some rotated) = true
is_rotated _ = false

abbrev pub is_some : {A : Type 0} → Option A → Bool
is_some none = false
is_some (some a) = true

-- The new row of a rotation: it joins the family of the current one.
abbrev pub next_in_family : ℤ → RefreshToken → RefreshToken → RefreshToken
next_in_family user_id current next = record next {
  user_id = user_id;
  family_id = if is_empty current.family_id then current.jti else current.family_id;
}

-- The test of the arguments of `RotateRefreshToken`.
abbrev pub is_bad_rotation : ℤ → ℤ → String → String → RefreshToken → Time → Bool
is_bad_rotation user_id auth_version old_jti old_hash next requested =
    leb_ℤ user_id (pos 0)
    || leb_ℤ auth_version (pos 0)
    || is_empty old_jti
    || is_empty old_hash
    || is_empty next.jti
    || is_empty next.token_hash
    || not (after next.expires_at requested)

module _ (db : Database) where
  open db use {State}

  abbrev pub ensure_db : Bool → Action State (Unit {0})
  ensure_db initialized = raise_if (not initialized) (sentinel database_not_initialized)

  -- `StoreRefreshToken`
  unfoldable pub store_refresh_token : Bool → Option RefreshToken → Action State (Unit {0})
  store_refresh_token initialized none = do
    ensure_db initialized
    raise (sentinel Sentinel.refresh_token_invalid)
  store_refresh_token initialized (some token) = do
    ensure_db initialized
    raise_if
        (leb_ℤ token.user_id (pos 0)
          || is_empty token.jti
          || is_empty token.family_id
          || is_empty token.token_hash)
        (sentinel Sentinel.refresh_token_invalid)
    on_error (refresh_token_failure "保存 refresh token 失败") (create db token)
    pure tt

  -- A token that was revoked is presented again.
  unfoldable pub reuse : ℤ → RefreshToken → Time → Action State Bool
  reuse user_id current now =
      if is_rotated current.revoked_reason && not (is_empty current.family_id)
      then (do
        on_error (refresh_token_failure "吊销 refresh token family 失败")
            (revoke_family db user_id current.family_id now replay_detected)
        pure true)
      else raise (sentinel Sentinel.refresh_token_revoked)

  unfoldable pub exchange : ℤ → String → RefreshToken → RefreshToken → Time → Action State Bool
  exchange user_id old_jti current next now = do
    on_error (refresh_token_failure "创建新 refresh token 失败")
        (create db (next_in_family user_id current next))
    on_error (refresh_token_failure "吊销旧 refresh token 失败")
        (revoke_by_jti db old_jti now rotated (some next.jti))
    pure false

  -- The current token is the caller's: it is revoked, or expired, or exchanged.
  unfoldable pub present :
      ℤ → String → RefreshToken → RefreshToken → Time → Time → Action State Bool
  present user_id old_jti current next checked written =
      if is_some current.revoked_at
      then reuse user_id current checked
      else if not (after current.expires_at checked)
      then raise (sentinel refresh_token_expired)
      else exchange user_id old_jti current next written

  unfoldable pub present_token :
      ℤ → String → String → RefreshToken → Time → Time → Action State Bool
  present_token user_id old_jti old_hash next checked written = do
    current ← on_error find_token_error (find_by_jti_for_update db old_jti)
    raise_if (not (eq_ℤ current.user_id user_id) || not (str_eq current.token_hash old_hash))
        (sentinel Sentinel.refresh_token_invalid)
    present user_id old_jti current next checked written

  -- The function that `RotateRefreshToken` hands to the transaction; it answers `replayDetected`.
  unfoldable pub rotate_body :
      ℤ → ℤ → String → String → RefreshToken → Time → Time → Action State Bool
  rotate_body user_id auth_version old_jti old_hash next checked written = do
    user ← on_error locked_user_error (get_user_by_id_for_update db user_id)
    raise_if
        (not (eq_ℤ user.status user_status_active) || not (eq_ℤ user.auth_version auth_version))
        (sentinel Sentinel.refresh_token_invalid)
    present_token user_id old_jti old_hash next checked written

  -- `RotateRefreshToken`
  unfoldable pub rotate_refresh_token :
      Bool
      → ℤ
      → ℤ
      → String
      → String
      → Option RefreshToken
      → Time
      → Time
      → Time
      → Action State (Unit {0})
  rotate_refresh_token initialized user_id auth_version old_jti old_hash none requested checked
        written =
      do ensure_db initialized; raise (sentinel Sentinel.refresh_token_invalid)
  rotate_refresh_token initialized user_id auth_version old_jti old_hash (some next) requested
        checked written =
      do
        ensure_db initialized
        raise_if (is_bad_rotation user_id auth_version old_jti old_hash next requested)
            (sentinel Sentinel.refresh_token_invalid)
        replay_seen ←
            db.transaction Bool
              (rotate_body user_id auth_version old_jti old_hash next checked written)
        raise_if replay_seen (sentinel refresh_token_replay)

  unfoldable pub revoke_body : ℤ → String → String → Time → Action State (Unit {0})
  revoke_body user_id jti token_hash now = do
    current ← on_error find_token_error (find_by_jti_for_update db jti)
    raise_if (not (eq_ℤ current.user_id user_id) || not (str_eq current.token_hash token_hash))
        (sentinel Sentinel.refresh_token_invalid)
    if is_some current.revoked_at then pure tt else (do
      on_error (refresh_token_failure "吊销 refresh token 失败") (revoke_by_jti db jti now logout none)
      pure tt)

  -- `RevokeRefreshToken`
  unfoldable pub revoke_refresh_token : Bool → ℤ → String → String → Time → Action State (Unit {0})
  revoke_refresh_token initialized user_id jti token_hash now = do
    ensure_db initialized
    raise_if (leb_ℤ user_id (pos 0) || is_empty jti || is_empty token_hash)
        (sentinel Sentinel.refresh_token_invalid)
    db.transaction (Unit {0}) (revoke_body user_id jti token_hash now)

  -- `RevokeAllRefreshTokens`
  unfoldable pub revoke_all_refresh_tokens : Bool → ℤ → Time → Action State (Unit {0})
  revoke_all_refresh_tokens initialized user_id now = do
    ensure_db initialized
    raise_if (leb_ℤ user_id (pos 0)) (sentinel invalid_user_id)
    on_error (refresh_token_failure "吊销用户 refresh token 失败")
        (revoke_all_by_user_id db user_id now password_change)
    pure tt
