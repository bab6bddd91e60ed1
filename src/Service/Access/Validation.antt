-- ===== src/Service/Access/Validation.antt =====
-- `ValidateAccessToken`: which claims are accepted.
use go_user_system.Common.{
  Bool, true, false, not, Option, none, some, if◌then◌else◌, first, ◌≡◌, refl, not-or, Bool-cases,
  Option-cases, inl, inr,
}
use go_user_system.Common.Int.{eq_ℤ}
use go_user_system.Common.Time.{Time}
use go_user_system.Errors.{Error, sentinel, error_is, Sentinel}
use go_user_system.Model.{User, user_status_active}
use go_user_system.Result.{Result, ok, err, Result-cases}
use go_user_system.Database.{Database, Tables, done, broken, visible}
use go_user_system.Dao.{has_id}
use go_user_system.Dao.Laws.{get_user_by_id_lem}
use go_user_system.AuthState.Interface.{Store}
use go_user_system.Service.Promise.{IsFault}
use go_user_system.Service.Auth.{auth_state_unavailable}
use go_user_system.Service.Auth.Rotation.{is_current}
use go_user_system.Token.{UserClaims}
use go_user_system.Service.Access.{access_invalid, is_bad_claims, validate_access_token}

-- What the answer of the store about the token's id makes of claims that are good otherwise.
abbrev pub by_answer : Result Bool → Result (Unit {0})
by_answer (ok true) = err access_invalid
by_answer (ok false) = ok tt
by_answer (err e) = err (auth_state_unavailable "读取 access token 吊销状态失败" e)

abbrev pub by_row : UserClaims → Result Bool → Option User → Result (Unit {0})
by_row claims answer none = err access_invalid
by_row claims answer (some u) =
    if is_current claims.auth_version u then by_answer answer else err access_invalid

-- Claims are accepted if they name an active user, carry the version that the user's row has now,
-- and their token is not revoked.
abbrev pub validity : Bool → UserClaims → Result Bool → Tables → Result (Unit {0})
validity initialized claims answer t =
    if not initialized
    then err (sentinel Sentinel.database_not_initialized)
    else if is_bad_claims claims
    then err access_invalid
    else by_row claims answer (first (visible (has_id claims.user_id)) t.users)

module _ (db : Database) (store : Store) (initialized : Bool) (claims : UserClaims)
    (at : Time) where
  open db use {view}

  pub data ValidationEnds (t : Tables) (answer : Result Bool)
      (o : Result (Unit {0}) × (db.State × store.State)) : Type 0 where
    decided :
        o.0 ≡ validity initialized claims answer t → view o.1.0 ≡ t → ValidationEnds t answer o
    fault : (e : Error) → o.0 ≡ err e → IsFault e → view o.1.0 ≡ t → ValidationEnds t answer o

  -- `ValidateAccessToken` decides as the row of the user and the answer of the store call for, or
  -- reports a failure of the database; it changes no table.
  pub validate_access_token_ends :
      (s : db.State) (m : store.State)
      → ValidationEnds
          (view s)
          (store.is_revoked claims.jti at m).0
          (validate_access_token db store initialized (some claims) at (s, m))
  unfolding validate_access_token error_is
  validate_access_token_ends s m = elim (Bool-cases initialized) [
    | inr missing ↦ rw missing (decided refl refl)
    | inl ready ↦ elim (Bool-cases (is_bad_claims claims)) [
      | inl bad ↦ rw (ready, bad) (decided (rw (bad) refl) refl)
      | inr good ↦ elim (get_user_by_id_lem db claims.user_id s) [
        | broken text p q ↦ rw (ready, good, p) (fault _ refl refl q)
        | done p q ↦ elim (Option-cases (first (visible (has_id claims.user_id)) (view s).users)) [
          | inl absent ↦ rw (ready, good, p, absent) (decided (rw (good, absent) refl) q)
          | inr (u, found) ↦
              let flip =
                not-or (eq_ℤ u.status user_status_active)
                  (eq_ℤ u.auth_version claims.auth_version) in
              elim (Bool-cases (is_current claims.auth_version u)) [
                | inr stale ↦
                    rw (ready, good, p, found, flip, stale)
                      (decided (rw (good, found, stale) refl) q)
                | inl current ↦ elim (Result-cases (store.is_revoked claims.jti at m).0) [
                  | inr (e, lost) ↦
                      rw (ready, good, p, found, flip, current, lost)
                        (decided (rw (good, found, current) refl) q)
                  | inl (revoked, told) ↦ elim (Bool-cases revoked) [
                    | inl held ↦
                        rw (ready, good, p, found, flip, current, told, held)
                          (decided (rw (good, found, current) refl) q)
                    | inr free ↦
                        rw (ready, good, p, found, flip, current, told, free)
                          (decided (rw (good, found, current) refl) q)
                  ]
                ]
              ]
        ]
      ]
    ]
  ]
