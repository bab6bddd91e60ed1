-- ===== src/Service/User/Password.antt =====
-- `UpdateUserPassword`: the verdict on a request, and the tables of after.
use go_user_system.Common.{
  String, Bool, not, Option, none, some, if◌then◌else◌, first, count_if, update_if, ◌==◌, str_eq,
  ◌≡◌, refl, ◌∙◌, ◌⊎◌, Bool-cases, Option-cases, inl, inr, ap,
}
use go_user_system.Common.Int.{ℤ, pos, leb_ℤ}
use go_user_system.Common.Time.{Time}
use go_user_system.Errors.{Error, sentinel, error_is, Sentinel, record_not_found, invalid_user_id}
use go_user_system.Model.{User, password_change}
use go_user_system.Result.{
  Result, ok, err, Action, lift, map_error, on_error, ◌>>=◌, ◌>>◌, raise_if, Result-cases,
}
use go_user_system.Database.{Database, Tables, done, broken, visible}
use go_user_system.Dao.{has_id, has_hash_and_id, set_password, update_user_password_by_user_id}
use go_user_system.Dao.Laws.{get_user_by_id_for_update_lem}
use go_user_system.Repository.Laws.{all_revoked, revoke_all_by_user_id_lem}
use go_user_system.Service.Promise.{
  Verdict, refused, accepted, IsFault, external-IsFault, Runs, refuses, succeeds, faults, refusal,
  Implements, settles,
}
use go_user_system.Service.User.{
  Bcrypt, UserService, update_user_password, password_body, revoke_sessions, password_failed,
  is_bad_password, validate_password,
}

-- Any failure of the look-up of the row is reported as a missing user.
abbrev pub IsPasswordFault : Error → Type 0
IsPasswordFault e = IsFault e ⊎ (e ≡ sentinel Sentinel.user_not_found)

module _ (db : Database) (bcrypt : Bcrypt) (has_refresh_repo : Bool) (user_id : ℤ)
    (old_password new_password : String) (now : Time) where
  open db use {State, view, collates}

  -- The rows that the conditional update selects.
  abbrev pub holds : User → User → Bool
  holds u = visible (has_hash_and_id db u.password_hash user_id)

  abbrev pub sessions_ended : Tables → Tables
  sessions_ended t = if has_refresh_repo then all_revoked db user_id now password_change t else t

  abbrev pub changed : User → String → Tables → Tables
  changed u hash t = record t { users = update_if (holds u) (set_password hash) t.users }

  abbrev pub hash_verdict : User → Tables → Result String → Verdict (Unit {0})
  hash_verdict u t (err e) = refused (sentinel Sentinel.invalid_credentials)
  hash_verdict u t (ok hash) =
      if count_if (holds u) t.users == 1
      then accepted tt (sessions_ended (changed u hash t))
      else refused (password_failed record_not_found)

  abbrev pub row_verdict : Tables → Option User → Verdict (Unit {0})
  row_verdict t none = refused (sentinel Sentinel.user_not_found)
  row_verdict t (some u) =
      if not (bcrypt.matches u.password_hash old_password)
      then refused (sentinel Sentinel.old_password_incorrect)
      else if is_bad_password new_password
      then refused (sentinel Sentinel.password_too_short_or_too_long)
      else hash_verdict u t (bcrypt.generate new_password)

  abbrev pub body_verdict : Tables → Verdict (Unit {0})
  body_verdict t = row_verdict t (first (visible (has_id user_id)) t.users)

  ends_sessions :
      (t : Tables) (s : State)
      → view s ≡ t
      → Runs view IsPasswordFault
          (accepted tt (sessions_ended t))
          (revoke_sessions db has_refresh_repo user_id now s)
  unfolding revoke_sessions error_is
  ends_sessions t s same = elim (Bool-cases has_refresh_repo) [
    | inr without ↦ rw without (succeeds _ _ refl refl same)
    | inl there ↦ elim (revoke_all_by_user_id_lem db user_id now password_change s) [
      | broken text p q ↦ rw (there, p) (faults _ refl (inl refl))
      | done p q ↦
          rw (there, p)
            (succeeds _ _ refl refl (q ∙ ap (all_revoked db user_id now password_change) same))
    ]
  ]

  abbrev saves : User → String → Action State (Unit {0})
  saves u hash =
      on_error password_failed (update_user_password_by_user_id db user_id u.password_hash hash)
      >> revoke_sessions db has_refresh_repo user_id now

  saves_runs :
      (u : User) (hash : String) (t : Tables) (s : State)
      → view s ≡ t
      → Runs view IsPasswordFault (hash_verdict u t (ok hash)) (saves u hash s)
  unfolding update_user_password_by_user_id error_is
  saves_runs u hash t s same =
      elim (db.update_users_lem (has_hash_and_id db u.password_hash user_id) (set_password hash)
        s) [
          | broken text p q ↦ rw p (faults _ refl (inl refl))
          | done p q ↦
              let p' = rw same at p in
              elim (Bool-cases (count_if (holds u) t.users == 1)) [
                | inr other ↦ rw (p', other) (refuses _ refl refl)
                | inl one ↦ rw (p', one) (ends_sessions (changed u hash t) _ (q ∙ rw same))
              ]
        ]

  abbrev replaces : User → Action State (Unit {0})
  replaces u =
      raise_if (not (bcrypt.matches u.password_hash old_password))
        (sentinel Sentinel.old_password_incorrect)
      >> (validate_password db new_password
          >> (lift (
                map_error (λ _. sentinel Sentinel.invalid_credentials)
                  (bcrypt.generate new_password))
              >>= saves u))

  replaces_runs :
      (u : User) (t : Tables) (s : State)
      → view s ≡ t
      → Runs view IsPasswordFault (row_verdict t (some u)) (replaces u s)
  replaces_runs u t s same = elim (Bool-cases (bcrypt.matches u.password_hash old_password)) [
    | inr wrong ↦ rw wrong (refuses _ refl refl)
    | inl right ↦ elim (Bool-cases (is_bad_password new_password)) [
      | inl bad ↦ rw (right, bad) (refuses _ refl refl)
      | inr good ↦ elim (Result-cases (bcrypt.generate new_password)) [
        | inl (hash, made) ↦ rw (right, good, made) (saves_runs u hash t s same)
        | inr (e, none_made) ↦ rw (right, good, none_made) (refuses _ refl refl)
      ]
    ]
  ]

  body_runs :
      (s : State)
      → Runs view IsPasswordFault
          (body_verdict (view s))
          (password_body db bcrypt has_refresh_repo user_id old_password new_password now s)
  unfolding password_body
  body_runs s = elim (get_user_by_id_for_update_lem db user_id s) [
    | broken text p q ↦ rw p (faults _ refl (inr refl))
    | done p q ↦ elim (Option-cases (first (visible (has_id user_id)) (view s).users)) [
      | inl missing ↦ rw (p, missing) (refuses _ refl refl)
      | inr (u, found) ↦ rw (p, found) (replaces_runs u (view s) _ q)
    ]
  ]

module _ (db : Database) (bcrypt : Bcrypt) (user_id : ℤ) (old_password new_password : String)
    (now : Time) where
  open db use {State, view}

  -- The old password is checked against the user's row; the new one must be another and of a good
  -- length. Then the row gets its hash and the next version, and the user's refresh tokens are
  -- revoked.
  abbrev pub password_verdict : UserService → Tables → Verdict (Unit {0})
  password_verdict svc t =
      if leb_ℤ user_id (pos 0)
      then refused (sentinel invalid_user_id)
      else if not svc.initialized
      then refused (sentinel Sentinel.database_not_initialized)
      else if str_eq old_password new_password
      then refused (sentinel Sentinel.user_password_no_difference)
      else body_verdict db bcrypt svc.has_refresh_repo user_id old_password new_password now t

  -- `UpdateUserPassword` ends as its verdict says, or reports a failure of the database (as a
  -- missing user where the look-up fails) and changes nothing.
  pub update_user_password-Implements :
      (svc : UserService)
      → Implements view IsPasswordFault
          (password_verdict svc)
          (update_user_password db bcrypt svc user_id old_password new_password now)
  unfolding update_user_password
  update_user_password-Implements svc s = elim (Bool-cases (leb_ℤ user_id (pos 0))) [
    | inl bad ↦ rw bad (refusal _ refl refl refl)
    | inr good ↦ elim (Bool-cases svc.initialized) [
      | inr missing ↦ rw (good, missing) (refusal _ refl refl refl)
      | inl ready ↦ elim (Bool-cases (str_eq old_password new_password)) [
        | inl same ↦ rw (good, ready, same) (refusal _ refl refl refl)
        | inr other ↦
            let has = svc.has_refresh_repo in
            rw (good, ready, other)
              (settles view IsPasswordFault
                (body_verdict db bcrypt has user_id old_password new_password now) _
                (λ text. inl (external-IsFault text))
                (body_runs db bcrypt has user_id old_password new_password now) s _
                (db.transaction_lem (Unit {0}) _ s))
      ]
    ]
  ]
