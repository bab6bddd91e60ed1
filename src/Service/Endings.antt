-- ===== src/Service/Endings.antt =====
-- What a change of the password does to the sessions of the account: `UpdateUserPassword` of
-- internal/service/user.go, then `ValidateAccessToken` of internal/service/auth.go.
mod Tests
use go_user_system.Common.{
  String, Bool, true, false, ◌&&◌, not, Option, none, some, if◌then◌else◌, first, first-sat,
  first-update_if, all, all-update_if_selected, count_if, ◌==◌, str_eq, ◌≡◌, ◌≢◌, refl, sym, ◌∙◌,
  ap, arith, List, Bool-cases, inl, inr,
}
use go_user_system.Common.Int.{ℤ, pos, leb_ℤ, eq_ℤ, ◌+ℤ◌, +ℤ_parts, int_laws}
use go_user_system.Common.Time.{Time}
use go_user_system.Errors.{Error}
use go_user_system.Model.{User, RefreshToken, password_change}
use go_user_system.Result.{Result, ok, err, Result-cases}
use go_user_system.Database.{Database, Tables, visible}
use go_user_system.Dao.{has_id, set_password}
use go_user_system.Repository.{is_unrevoked, mark_revoked}
use go_user_system.Repository.Laws.{all_revoked}
use go_user_system.AuthState.Interface.{Store}
use go_user_system.Service.Promise.{Verdict, refused, accepted, refusal, success, fault}
use go_user_system.Service.User.{Bcrypt, UserService, update_user_password, is_bad_password}
use go_user_system.Service.User.Password.{
  holds, changed, sessions_ended, hash_verdict, row_verdict, body_verdict, password_verdict,
  update_user_password-Implements,
}
use go_user_system.Service.Auth.Rotation.{is_current}
use go_user_system.Token.{UserClaims}
use go_user_system.Service.Access.{validate_access_token, is_bad_claims}
use go_user_system.Service.Access.Validation.{
  validity, by_row, by_answer, validate_access_token_ends, decided,
}
use go_user_system.Service.Access.Validation

-- No token of a user is still unrevoked.
abbrev pub AllEnded : ℤ → List RefreshToken → Type 0
AllEnded user_id tokens = all (λ r. not (eq_ℤ r.user_id user_id && is_unrevoked r)) tokens ≡ true

-- The next version is another.
next-ne : (v : ℤ) → eq_ℤ (v +ℤ pos 1) v ≡ false
next-ne v = ground (arith, +ℤ_parts v (pos 1))

module _ (db : Database) (bcrypt : Bcrypt) (user_id : ℤ) (old_password new_password : String)
    (now : Time) where
  open db use {State, view, collates}

  abbrev selected : User → User → Bool
  selected = holds db bcrypt true user_id old_password new_password now

  abbrev rehashed : User → String → Tables → Tables
  rehashed = changed db bcrypt true user_id old_password new_password now

  abbrev ended : Tables → Tables
  ended = all_revoked db user_id now password_change

  -- A change that was accepted has written a hash to the row of the user.
  hash_verdict-accepts :
      (u : User) (t after : Tables) (r : Result String) (a : Unit {0})
      → hash_verdict db bcrypt true user_id old_password new_password now u t r ≡ accepted a after
      → (hash : String) × (after ≡ ended (rehashed u hash t))
  hash_verdict-accepts u t after (err e) a h = absurd (cc)
  hash_verdict-accepts u t after (ok hash) a h =
      elim (Bool-cases (count_if (selected u) t.users == 1)) [
        | inl one ↦ (hash, let k = rw one at h in cc)
        | inr other ↦ absurd (let k = rw other at h in cc)
      ]

  row_verdict-accepts :
      (u : User) (t after : Tables) (a : Unit {0})
      → row_verdict db bcrypt true user_id old_password new_password now t (some u)
        ≡ accepted a after
      → (hash : String) × (after ≡ ended (rehashed u hash t))
  row_verdict-accepts u t after a h =
      elim (Bool-cases (bcrypt.matches u.password_hash old_password)) [
        | inr wrong ↦ absurd (let k = rw wrong at h in cc)
        | inl right ↦ elim (Bool-cases (is_bad_password new_password)) [
          | inl bad ↦ absurd (let k = rw (right, bad) at h in cc)
          | inr good ↦
              hash_verdict-accepts u t after (bcrypt.generate new_password) a
                (rw (right, good) at h)
        ]
      ]

  password_verdict-accepts :
      (initialized has_rbac : Bool) (u : User) (t after : Tables) (a : Unit {0})
      → first (visible (has_id user_id)) t.users ≡ some u
      → password_verdict db bcrypt user_id old_password new_password now
          (record { initialized = initialized; has_refresh_repo = true; has_rbac_repo = has_rbac })
          t
        ≡ accepted a after
      → (hash : String) × (after ≡ ended (rehashed u hash t))
  password_verdict-accepts initialized has_rbac u t after a found h =
      elim (Bool-cases (leb_ℤ user_id (pos 0))) [
        | inl bad ↦ absurd (let k = rw bad at h in cc)
        | inr good ↦ elim (Bool-cases initialized) [
          | inr missing ↦ absurd (let k = rw (good, missing) at h in cc)
          | inl ready ↦ elim (Bool-cases (str_eq old_password new_password)) [
            | inl same ↦ absurd (let k = rw (good, ready, same) at h in cc)
            | inr other ↦ row_verdict-accepts u t after a (rw (good, ready, other, found) at h)
          ]
        ]
      ]

  -- The row of the user after the change.
  changed_row :
      (u : User) (hash : String) (t : Tables)
      → first (visible (has_id user_id)) t.users ≡ some u
      → first (visible (has_id user_id)) (rehashed u hash t).users ≡ some (set_password hash u)
  changed_row u hash t found =
      let seen : visible (has_id user_id) u ≡ true =
        first-sat (visible (has_id user_id)) t.users u found in
      let this : selected u u ≡ true = ground (arith, db.collates_refl u.password_hash) in
      first-update_if (visible (has_id user_id)) (selected u) (set_password hash) t.users
        (λ x. refl)
      ∙ rw (found, this) refl

  rejects :
      (initialized : Bool) (claims : UserClaims) (answer : Result Bool) (u : User) (hash : String)
      (t : Tables)
      → first (visible (has_id user_id)) t.users ≡ some u
      → claims.user_id ≡ user_id
      → claims.auth_version ≡ u.auth_version
      → validity initialized claims answer (ended (rehashed u hash t)) ≢ ok tt
  rejects initialized claims answer u hash t found same version h = elim (Bool-cases initialized) [
    | inr missing ↦ absurd (let k = rw missing at h in cc)
    | inl ready ↦ elim (Bool-cases (is_bad_claims claims)) [
      | inl bad ↦ absurd (let k = rw (ready, bad) at h in cc)
      | inr good ↦ absurd (
          let k =
            rw (ready, good, same, changed_row u hash t found, version, next-ne u.auth_version) at
              h in
          ground arith)
    ]
  ]

  abbrev service : Bool → Bool → UserService
  service initialized has_rbac = record {
    initialized = initialized;
    has_refresh_repo = true;
    has_rbac_repo = has_rbac;
  }

  abbrev changing : Bool → Bool → State → Result (Unit {0}) × State
  changing initialized has_rbac s =
      update_user_password db bcrypt (service initialized has_rbac) user_id old_password
        new_password now s

  tables_of_after :
      (initialized has_rbac : Bool) (u : User) (s : State)
      → first (visible (has_id user_id)) (view s).users ≡ some u
      → (changing initialized has_rbac s).0 ≡ ok tt
      → (hash : String) × (view (changing initialized has_rbac s).1
          ≡ ended (rehashed u hash (view s)))
  tables_of_after initialized has_rbac u s found done =
      elim (update_user_password-Implements db bcrypt user_id old_password new_password now
        (service initialized has_rbac) s) [
          | refusal e v p q ↦ absurd (cc)
          | success a after v p q ↦
              let (hash, same) =
                password_verdict-accepts initialized has_rbac u (view s) after a found v in
              (hash, q ∙ same)
          | fault e p f q ↦ absurd (cc)
        ]

  abbrev is_held : RefreshToken → Bool
  is_held r = eq_ℤ r.user_id user_id && is_unrevoked r

  marked-ended : (r : RefreshToken) → not (is_held (mark_revoked now password_change r)) ≡ true
  marked-ended r = ground arith

  -- A change of the password that succeeded leaves none of the user's refresh tokens unrevoked.
  pub password_change_revokes_tokens :
      (initialized has_rbac : Bool) (u : User) (s : State)
      → first (visible (has_id user_id)) (view s).users ≡ some u
      → (changing initialized has_rbac s).0 ≡ ok tt
      → AllEnded user_id (view (changing initialized has_rbac s).1).tokens
  password_change_revokes_tokens initialized has_rbac u s found done =
      let (hash, same) = tables_of_after initialized has_rbac u s found done in
      rw same (
        all-update_if_selected (λ r. not (is_held r)) is_held (mark_revoked now password_change)
          (view s).tokens marked-ended (λ r h. rw h refl))

  -- After a change of the password that succeeded, claims of the user with the version of before
  -- are not accepted, whatever the store of revoked tokens says.
  pub password_change_rejects_access :
      (store : Store) (initialized has_rbac validating : Bool) (u : User) (claims : UserClaims)
      (at : Time) (s : State) (m : store.State)
      → first (visible (has_id user_id)) (view s).users ≡ some u
      → (changing initialized has_rbac s).0 ≡ ok tt
      → claims.user_id ≡ user_id
      → claims.auth_version ≡ u.auth_version
      → (validate_access_token db store validating
          (some claims)
          at
          ((changing initialized has_rbac s).1, m)).0
        ≢ ok tt
  password_change_rejects_access store initialized has_rbac validating u claims at s m found done
        mine old got_in =
      let (hash, same) = tables_of_after initialized has_rbac u s found done in
      elim (validate_access_token_ends db store validating claims at
        (changing initialized has_rbac s).1 m) [
          | decided p q ↦
              rejects validating claims (store.is_revoked claims.jti at m).0 u hash (view s) found
                mine old
                (ap (validity validating claims (store.is_revoked claims.jti at m).0) (sym same)
                  ∙ sym p
                  ∙ got_in)
          | Validation.fault e p f q ↦ absurd (cc)
        ]
