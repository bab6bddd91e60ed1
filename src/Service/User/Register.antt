-- ===== src/Service/User/Register.antt =====
-- `Register`: the row that it creates, with its role, and what it refuses.
use Prim.Native.String.{len}
use go_user_system.Common.{
  String, Bool, not, Option, none, some, if◌then◌else◌, first, any, [], ◌∷◌, ◌++◌, ltb, ◌≡◌, refl,
  ◌∙◌, Bool-cases, Option-cases, inl, inr,
}
use go_user_system.Common.Int.{pos, ◌+ℤ◌}
use go_user_system.Common.Text.{trim_space}
use go_user_system.Errors.{Error, sentinel, error_is, Sentinel, repository_role_not_found}
use go_user_system.Model.{User, Role, UserRole, role_code_user, with_defaults}
use go_user_system.Result.{
  Result, ok, err, Action, on_error, attempt, lift, map_error, pure, ◌>>=◌, ◌>>◌, Result-cases,
}
use go_user_system.Database.{
  Database, Tables, done, broken, visible, duplicate_entry, same_user_role, add_user_role,
}
use go_user_system.Dao.{create_user, get_user_by_username}
use go_user_system.Dao.Laws.{get_user_by_username_lem, create_user_lem}
use go_user_system.Repository.Rbac.{user_role, find_role_by_code, assign_role_to_user_by_code}
use go_user_system.Service.Promise.{
  Verdict, refused, accepted, wrap, Runs, refuses, succeeds, faults, Keeps, refusal, success, fault,
  Implements, settles, wraps, IsFault, external-IsFault,
}
use go_user_system.Service.User.{
  Bcrypt, UserService, register, register_failed, new_user, create_with_role, refuse_known,
  is_bad_password,
}

abbrev pub with_role : UserRole → Tables → Tables
with_role r t = if any (same_user_role r) t.user_roles then t else add_user_role r t

abbrev pub with_user : User → Tables → Tables
with_user u t = record t {
  users = t.users ++ with_defaults (record u { id = t.next_user_id }) ∷ [];
  next_user_id = t.next_user_id +ℤ pos 1;
}

-- The role `user` for the user that has just been created.
abbrev pub role_verdict : Tables → Tables → Option Role → Verdict (Unit {0})
role_verdict before t none = refused repository_role_not_found
role_verdict before t (some r) = accepted tt (with_role (user_role before.next_user_id r) t)

module _ (db : Database) where
  open db use {State, view, collates}

  abbrev pub is_taken : String → Tables → Bool
  is_taken username t = any (λ v. collates v.username username) t.users

  abbrev pub created : User → Tables → Verdict (Unit {0})
  created u t =
      if is_taken u.username t then refused duplicate_entry else accepted tt (with_user u t)

  abbrev pub created_with_role : User → Tables → Verdict (Unit {0})
  created_with_role u t =
      if is_taken u.username t
      then refused duplicate_entry
      else role_verdict t (with_user u t) (first (λ r. collates r.code role_code_user) t.roles)

  role_runs :
      (u : User) (before : Tables) (s : State)
      → view s ≡ with_user u before
      → Runs view IsFault
          (role_verdict before
            (with_user u before)
            (first (λ r. collates r.code role_code_user) before.roles))
          (assign_role_to_user_by_code db before.next_user_id role_code_user s)
  unfolding assign_role_to_user_by_code find_role_by_code error_is
  role_runs u before s same = elim (db.first_role_lem (λ r. collates r.code role_code_user) s) [
    | broken text p q ↦ rw p (faults _ refl refl)
    | done p q ↦
        let p' = rw same at p in
        elim (Option-cases (first (λ r. collates r.code role_code_user) before.roles)) [
          | inl missing ↦ rw (p', missing) (refuses _ refl refl)
          | inr (r, found) ↦
              let s1 = (db.first_role (λ r. collates r.code role_code_user) s).1 in
              let row = user_role before.next_user_id r in
              elim (db.first_or_create_user_role_lem row s1) [
                | broken text p2 q2 ↦ rw (p', found, p2) (faults _ refl refl)
                | done p2 q2 ↦ elim (Bool-cases (any (same_user_role row) before.user_roles)) [
                  | inl has ↦
                      rw (p', found, p2, q, same, has)
                        (succeeds _ _ refl refl (q2 ∙ rw (q, same, has)))
                  | inr lacks ↦
                      rw (p', found, p2, q, same, lacks)
                        (succeeds _ _ refl refl (q2 ∙ rw (q, same, lacks)))
                ]
              ]
        ]
  ]

  create_runs :
      (u : User) (s : State)
      → Runs view IsFault (created_with_role u (view s)) (create_with_role db u s)
  unfolding create_with_role create_user error_is
  create_runs u s = elim (db.create_user_lem u s) [
    | broken text p q ↦ rw p (faults _ refl refl)
    | done p q ↦ elim (Bool-cases (is_taken u.username (view s))) [
      | inl taken ↦ rw (p, taken) (refuses _ refl refl)
      | inr fresh ↦ rw (p, fresh) (role_runs u (view s) _ (q ∙ rw fresh))
    ]
  ]

  creates :
      (f : Error → Error) (u : User) (s : State)
      → ((e : Error) → IsFault e → IsFault (f e))
      → Keeps view IsFault
          (wrap f (created u (view s)))
          (view s)
          ((on_error f (create_user db u) >>= λ _. pure tt) s)
  unfolding error_is
  creates f u s h = elim (create_user_lem db u s) [
    | broken text p q ↦ rw p (fault _ refl (h _ refl) q)
    | done p q ↦ elim (Bool-cases (is_taken u.username (view s))) [
      | inl taken ↦ rw (p, taken) (refusal _ refl refl (q ∙ rw taken))
      | inr fresh ↦ rw (p, fresh) (success _ _ refl refl (q ∙ rw fresh))
    ]
  ]

module _ (db : Database) (bcrypt : Bcrypt) (has_rbac_repo : Bool) (name password : String) where
  open db use {State, view, collates}

  abbrev pub hash_verdict : Tables → Result String → Verdict (Unit {0})
  hash_verdict t (err e) = refused (register_failed e)
  hash_verdict t (ok hash) = wrap register_failed (
      if has_rbac_repo
      then created_with_role db (new_user (trim_space name) hash) t
      else created db (new_user (trim_space name) hash) t)

  -- The tables of before and the row that the look-up of the name finds.
  abbrev pub name_verdict : Tables → Option User → Verdict (Unit {0})
  name_verdict t (some u) = refused (sentinel Sentinel.username_already_exists)
  name_verdict t none = hash_verdict t (bcrypt.generate password)

  register_failed-IsFault : (e : Error) → IsFault e → IsFault (register_failed e)
  unfolding error_is
  register_failed-IsFault e h = h

  abbrev stores : String → Action State (Unit {0})
  stores hash =
      if not has_rbac_repo
      then (on_error register_failed (create_user db (new_user (trim_space name) hash)) >>= λ _.
          pure tt)
      else on_error register_failed
          (db.transaction (Unit {0}) (create_with_role db (new_user (trim_space name) hash)))

  stores-Keeps :
      (hash : String) (s : State)
      → Keeps view IsFault (hash_verdict (view s) (ok hash)) (view s) (stores hash s)
  stores-Keeps hash s =
      let u = new_user (trim_space name) hash in
      elim (Bool-cases has_rbac_repo) [
        | inr without ↦ rw without (creates db register_failed u s register_failed-IsFault)
        | inl there ↦ rw there (
            wraps view IsFault register_failed (created_with_role db u) (view s) _
              register_failed-IsFault
              (settles view IsFault (created_with_role db u) _ external-IsFault (create_runs db u) s
                _ (db.transaction_lem (Unit {0}) _ s)))
      ]

  generates :
      (s : State)
      → Keeps view IsFault
          (hash_verdict (view s) (bcrypt.generate password))
          (view s)
          ((lift (map_error register_failed (bcrypt.generate password)) >>= stores) s)
  generates s = elim (Result-cases (bcrypt.generate password)) [
    | inl (hash, made) ↦ rw made (stores-Keeps hash s)
    | inr (e, bad) ↦ rw bad (refusal _ refl refl refl)
  ]

  looks_up :
      (s : State)
      → Keeps view IsFault
          (name_verdict
            (view s)
            (first (visible (λ u. collates u.username (trim_space name))) (view s).users))
          (view s)
          ((attempt (get_user_by_username db (trim_space name)) >>= λ found.
              refuse_known db found
              >> (lift (map_error register_failed (bcrypt.generate password)) >>= stores))
            s)
  unfolding error_is
  looks_up s = elim (get_user_by_username_lem db (trim_space name) s) [
    | broken text p q ↦ rw p (fault _ refl refl q)
    | done p q ↦
        elim (Option-cases
          (first (visible (λ u. collates u.username (trim_space name))) (view s).users)) [
            | inl missing ↦ rw (p, missing) (rw (← q) (generates _))
            | inr (u, found) ↦ rw (p, found) (refusal _ refl refl q)
          ]
  ]

module _ (db : Database) (bcrypt : Bcrypt) (svc : UserService) (name password : String) where
  open db use {State, view, collates}

  -- A name of at least three bytes and a good password are registered if no user has the name, and
  -- there is the role that each user gets.
  abbrev pub register_verdict : Tables → Verdict (Unit {0})
  register_verdict t =
      if ltb (len (trim_space name)) 3
      then refused (sentinel Sentinel.username_too_short)
      else if is_bad_password password
      then refused (sentinel Sentinel.password_too_short_or_too_long)
      else if not svc.initialized
      then refused (sentinel Sentinel.database_not_initialized)
      else name_verdict db bcrypt svc.has_rbac_repo name password t
          (first (visible (λ u. collates u.username (trim_space name))) t.users)

  -- `Register` ends as its verdict says, or reports a failure of the database and changes nothing:
  -- no user is left without the role.
  pub register-Implements :
      Implements view IsFault register_verdict (register db bcrypt svc name password)
  unfolding register
  register-Implements s = elim (Bool-cases (ltb (len (trim_space name)) 3)) [
    | inl short ↦ rw short (refusal _ refl refl refl)
    | inr long ↦ elim (Bool-cases (is_bad_password password)) [
      | inl bad ↦ rw (long, bad) (refusal _ refl refl refl)
      | inr good ↦ elim (Bool-cases svc.initialized) [
        | inr missing ↦ rw (long, good, missing) (refusal _ refl refl refl)
        | inl ready ↦ rw (long, good, ready) (looks_up db bcrypt svc.has_rbac_repo name password s)
      ]
    ]
  ]
