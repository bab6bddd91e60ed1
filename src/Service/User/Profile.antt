-- ===== src/Service/User/Profile.antt =====
-- `GetProfile` and `UpdateNickname`.
use Prim.Native.String.{len}
use go_user_system.Common.{
  String, Bool, not, Option, none, some, if◌then◌else◌, first, ltb, str_eq, ◌≡◌, refl, ◌∙◌,
  Bool-cases, Option-cases, inl, inr, ap,
}
use go_user_system.Common.Int.{ℤ, pos, leb_ℤ, eq_ℤ}
use go_user_system.Common.Text.{trim_space, is_empty}
use go_user_system.Errors.{sentinel, error_is, Sentinel, invalid_user_id}
use go_user_system.Model.{User, user_status_active}
use go_user_system.Result.{Action, pure, raise_if, on_error, ◌>>◌}
use go_user_system.Database.{Database, Tables, done, broken, visible}
use go_user_system.Dao.{has_id, update_nickname_by_id}
use go_user_system.Dao.Laws.{with_users, get_user_by_id_lem, update_nickname_by_id_lem}
use go_user_system.Service.Promise.{
  Verdict, refused, accepted, IsFault, Keeps, refusal, success, fault, Implements,
}
use go_user_system.Service.User.{Bcrypt, UserService, get_profile, update_nickname, nickname_failed}

-- The user of an id, if there is one.
abbrev pub user_with : ℤ → Tables → Option User
user_with user_id t = first (visible (has_id user_id)) t.users

abbrev pub profile_row : Tables → Option User → Verdict User
profile_row t none = refused (sentinel Sentinel.user_not_found)
profile_row t (some u) =
    if eq_ℤ u.status user_status_active
    then accepted u t
    else refused (sentinel Sentinel.user_disabled)

abbrev pub profile_verdict : Bool → ℤ → Tables → Verdict User
profile_verdict initialized user_id t =
    if leb_ℤ user_id (pos 0)
    then refused (sentinel invalid_user_id)
    else if not initialized
    then refused (sentinel Sentinel.database_not_initialized)
    else profile_row t (user_with user_id t)

abbrev pub renamed : ℤ → String → Tables → Tables
renamed user_id nickname = with_users (has_id user_id) (λ u. record u { nickname = nickname })

-- The nickname that a user has already is accepted whatever the status of the account.
abbrev pub nickname_row : ℤ → String → Tables → Option User → Verdict (Unit {0})
nickname_row user_id nickname t none = refused (sentinel Sentinel.user_not_found)
nickname_row user_id nickname t (some u) =
    if str_eq u.nickname nickname
    then accepted tt t
    else if eq_ℤ u.status user_status_active
    then accepted tt (renamed user_id nickname t)
    else refused (sentinel Sentinel.user_disabled)

abbrev pub nickname_verdict : Bool → ℤ → String → Tables → Verdict (Unit {0})
nickname_verdict initialized user_id given t =
    if leb_ℤ user_id (pos 0)
    then refused (sentinel invalid_user_id)
    else if is_empty (trim_space given)
    then refused (sentinel Sentinel.nickname_empty)
    else if ltb 64 (len (trim_space given))
    then refused (sentinel Sentinel.nickname_too_long)
    else if not initialized
    then refused (sentinel Sentinel.database_not_initialized)
    else nickname_row user_id (trim_space given) t (user_with user_id t)

module _ (db : Database) (bcrypt : Bcrypt) where
  open db use {State, view}

  -- `GetProfile` ends as its verdict says, or reports a failure of the database; it changes
  -- nothing.
  pub get_profile-Implements :
      (svc : UserService) (user_id : ℤ)
      → Implements view IsFault
          (profile_verdict svc.initialized user_id)
          (get_profile db bcrypt svc user_id)
  unfolding get_profile error_is
  get_profile-Implements svc user_id s = elim (Bool-cases (leb_ℤ user_id (pos 0))) [
    | inl bad ↦ rw bad (refusal _ refl refl refl)
    | inr good ↦ elim (Bool-cases svc.initialized) [
      | inr missing ↦ rw (good, missing) (refusal _ refl refl refl)
      | inl ready ↦ elim (get_user_by_id_lem db user_id s) [
        | broken text p q ↦ rw (good, ready, p) (fault _ refl refl q)
        | done p q ↦ elim (Option-cases (user_with user_id (view s))) [
          | inl absent ↦ rw (good, ready, p, absent) (refusal _ refl refl q)
          | inr (u, found) ↦ elim (Bool-cases (eq_ℤ u.status user_status_active)) [
            | inr inactive ↦ rw (good, ready, p, found, inactive) (refusal _ refl refl q)
            | inl active ↦ rw (good, ready, p, found, active) (success _ _ refl refl q)
          ]
        ]
      ]
    ]
  ]

  -- What `UpdateNickname` does with the row that it found.
  abbrev renames : ℤ → String → User → Action State (Unit {0})
  renames user_id nickname user =
      if str_eq user.nickname nickname
      then pure tt
      else (raise_if (not (eq_ℤ user.status user_status_active)) (sentinel Sentinel.user_disabled)
          >> (on_error nickname_failed (update_nickname_by_id db user_id nickname) >> pure tt))

  renames-Keeps :
      (user_id : ℤ) (nickname : String) (u : User) (t : Tables) (s : State)
      → view s ≡ t
      → Keeps view IsFault
          (nickname_row user_id nickname t (some u))
          t
          (renames user_id nickname u s)
  unfolding error_is
  renames-Keeps user_id nickname u t s same = elim (Bool-cases (str_eq u.nickname nickname)) [
    | inl has ↦ rw has (success _ _ refl refl same)
    | inr lacks ↦ elim (Bool-cases (eq_ℤ u.status user_status_active)) [
      | inr inactive ↦ rw (lacks, inactive) (refusal _ refl refl same)
      | inl active ↦ elim (update_nickname_by_id_lem db user_id nickname s) [
        | broken text p q ↦ rw (lacks, active, p) (fault _ refl refl (q ∙ same))
        | done p q ↦
            rw (lacks, active, p) (success _ _ refl refl (q ∙ ap (renamed user_id nickname) same))
      ]
    ]
  ]

  pub update_nickname-Implements :
      (svc : UserService) (user_id : ℤ) (given : String)
      → Implements view IsFault
          (nickname_verdict svc.initialized user_id given)
          (update_nickname db bcrypt svc user_id given)
  unfolding update_nickname error_is
  update_nickname-Implements svc user_id given s = elim (Bool-cases (leb_ℤ user_id (pos 0))) [
    | inl bad ↦ rw bad (refusal _ refl refl refl)
    | inr good ↦ elim (Bool-cases (is_empty (trim_space given))) [
      | inl empty ↦ rw (good, empty) (refusal _ refl refl refl)
      | inr full ↦ elim (Bool-cases (ltb 64 (len (trim_space given)))) [
        | inl long ↦ rw (good, full, long) (refusal _ refl refl refl)
        | inr short ↦ elim (Bool-cases svc.initialized) [
          | inr missing ↦ rw (good, full, short, missing) (refusal _ refl refl refl)
          | inl ready ↦ elim (get_user_by_id_lem db user_id s) [
            | broken text p q ↦ rw (good, full, short, ready, p) (fault _ refl refl q)
            | done p q ↦ elim (Option-cases (user_with user_id (view s))) [
              | inl absent ↦ rw (good, full, short, ready, p, absent) (refusal _ refl refl q)
              | inr (u, found) ↦
                  rw (good, full, short, ready, p, found)
                    (renames-Keeps user_id (trim_space given) u (view s) _ q)
            ]
          ]
        ]
      ]
    ]
  ]
