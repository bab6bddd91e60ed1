-- ===== src/Service/User/Login.antt =====
-- `Login`: the verdict on a name and a password.
use go_user_system.Common.{
  String, Bool, false, Option, none, some, if◌then◌else◌, first, refl, ◌∙◌, Bool-cases,
  Option-cases, inl, inr, ap,
}
use go_user_system.Common.Int.{eq_ℤ}
use go_user_system.Common.Text.{trim_space}
use go_user_system.Common.Time.{Time}
use go_user_system.Errors.{sentinel, error_is, database_not_initialized, invalid_credentials}
use go_user_system.Model.{User, user_status_active}
use go_user_system.Database.{Database, Tables, done, broken, visible}
use go_user_system.Dao.{has_id, get_user_by_username}
use go_user_system.Dao.Laws.{with_users, get_user_by_username_lem, update_last_login_at_by_id_lem}
use go_user_system.Service.Promise.{
  Verdict, refused, accepted, refusal, success, fault, Implements, IsFault,
}
use go_user_system.Service.User.{Bcrypt, UserService, login}

module _ (db : Database) (bcrypt : Bcrypt) (name password : String) (now : Time) where
  open db use {State, view, collates}

  abbrev pub logged_in : User → User
  logged_in u = record u { last_login_at = some now }

  abbrev pub is_admitted : User → Bool
  is_admitted u =
      if bcrypt.matches u.password_hash password then eq_ℤ u.status user_status_active else false

  abbrev pub row_verdict : Tables → Option User → Verdict User
  row_verdict t none = refused (sentinel invalid_credentials)
  row_verdict t (some u) =
      if is_admitted u
      then accepted (logged_in u) (with_users (has_id u.id) logged_in t)
      else refused (sentinel invalid_credentials)

  -- A user gets in by a name and its password while the account is active, and the time is
  -- written to the row. All others get one and the same error.
  abbrev pub login_verdict : Bool → Tables → Verdict User
  login_verdict initialized t =
      if initialized
      then row_verdict t (first (visible (λ u. collates u.username (trim_space name))) t.users)
      else refused (sentinel database_not_initialized)

  -- `Login` ends as its verdict says, or reports a failure of the database and changes nothing.
  pub login-Implements :
      (svc : UserService)
      → Implements view IsFault
          (login_verdict svc.initialized)
          (login db bcrypt svc name password now)
  unfolding login error_is
  login-Implements svc s = elim (Bool-cases svc.initialized) [
    | inr missing ↦ rw missing (refusal _ refl refl refl)
    | inl ready ↦ elim (get_user_by_username_lem db (trim_space name) s) [
      | broken text p q ↦ rw (ready, p) (fault _ refl refl q)
      | done p q ↦
          elim (Option-cases
            (first (visible (λ u. collates u.username (trim_space name))) (view s).users)) [
              | inl missing ↦ rw (ready, p, missing) (refusal _ refl refl q)
              | inr (u, found) ↦ elim (Bool-cases (bcrypt.matches u.password_hash password)) [
                | inr wrong ↦ rw (ready, p, found, wrong) (refusal _ refl refl q)
                | inl right ↦ elim (Bool-cases (eq_ℤ u.status user_status_active)) [
                  | inr inactive ↦ rw (ready, p, found, right, inactive) (refusal _ refl refl q)
                  | inl active ↦
                      elim (update_last_login_at_by_id_lem db u.id now
                        (get_user_by_username db (trim_space name) s).1) [
                          | broken text p' q' ↦
                              rw (ready, p, found, right, active, p') (fault _ refl refl (q' ∙ q))
                          | done p' q' ↦
                              rw (ready, p, found, right, active, p')
                                (success _ _ refl refl
                                  (q' ∙ ap (with_users (has_id u.id) logged_in) q))
                        ]
                ]
              ]
            ]
    ]
  ]
