-- ===== src/Service/Bootstrap/Kept.antt =====
-- `BootstrapAdmin` keeps the promise of its verdict.
use Prim.Native.String.{len}
use go_user_system.Common.{
  String, Bool, some, if◌then◌else◌, first, any, any-first, first-any, ltb, ◌≡◌, refl, ◌∙◌,
  Bool-cases, Option-cases, inl, inr,
}
use go_user_system.Common.Int.{eq_ℤ}
use go_user_system.Common.Text.{trim_space}
use go_user_system.Errors.{sentinel, wrapped, error_is, Sentinel}
use go_user_system.Model.{User, Role, UserRole, role_code_admin, role_code_user}
use go_user_system.Result.{Result, ok, err, map_error, resume, attempt, ◌>>=◌, ◌>>◌}
use go_user_system.Database.{Database, Tables, done, broken, visible, duplicate_entry}
use go_user_system.Dao.{create_user, get_user_by_username}
use go_user_system.Dao.Laws.{get_user_by_username_lem}
use go_user_system.Service.Promise.{
  refused, Runs, refuses, faults, Keeps, refusal, Implements, settles, IsFault, external-IsFault,
}
use go_user_system.Service.User.{Bcrypt, UserService, new_user, is_bad_password}
use go_user_system.Service.User.Register.{is_taken}
use go_user_system.Service.Bootstrap.{create_admin, refuse_known, bootstrap_body, bootstrap_admin}
use go_user_system.Service.Bootstrap.Promised.{
  ltb-count_if, role_of, is_named, with_admin, admin_verdict, hash_verdict, bootstrap_verdict,
  gives_roles,
}

module _ (db : Database) where
  open db use {State, view, collates}

  create_runs :
      (user : User) (admin : Role) (t : Tables) (s : State)
      → view s ≡ t
      → role_of db role_code_admin t ≡ some admin
      → Runs view IsFault
          (if is_taken db user.username t
            then refused (wrapped "create administrator" duplicate_entry)
            else with_admin db user admin (role_of db role_code_user t) t)
          (create_admin db user s)
  unfolding create_admin create_user error_is
  create_runs user admin t s same found = elim (db.create_user_lem user s) [
    | broken text p q ↦ rw p (faults _ refl refl)
    | done p q ↦
        let p' = rw same at p in
        elim (Bool-cases (is_taken db user.username t)) [
          | inl taken ↦ rw (p', taken) (refuses _ refl refl)
          | inr fresh ↦ rw (p', fresh) (gives_roles db user admin t _ (q ∙ rw (same, fresh)) found)
        ]
  ]

  names_run :
      (user : User) (admin : Role) (t : Tables) (s : State)
      → view s ≡ t
      → role_of db role_code_admin t ≡ some admin
      → Runs view IsFault
          (if is_named db user.username t
            then refused (sentinel Sentinel.username_already_exists)
            else if is_taken db user.username t
            then refused (wrapped "create administrator" duplicate_entry)
            else with_admin db user admin (role_of db role_code_user t) t)
          ((attempt (get_user_by_username db user.username) >>= λ found.
              refuse_known db found >> create_admin db user)
            s)
  unfolding error_is
  names_run user admin t s same role =
      let s1 = (get_user_by_username db user.username s).1 in
      let named = visible (λ u. collates u.username user.username) in
      elim (get_user_by_username_lem db user.username s) [
        | broken text p q ↦ rw p (faults _ refl refl)
        | done p q ↦
            let p' = rw same at p in
            elim (Option-cases (first named t.users)) [
              | inr (u, found) ↦
                  rw (p', found, any-first named t.users u found) (refuses _ refl refl)
              | inl missing ↦ elim (Bool-cases (is_named db user.username t)) [
                | inl has ↦ absurd (first-any named t.users has missing)
                | inr lacks ↦
                    let kept = q ∙ same in
                    rw (p', missing, lacks) (create_runs user admin t s1 kept role)
              ]
            ]
      ]

  body_runs :
      (user : User) (s : State)
      → Runs view IsFault
          (admin_verdict db user (role_of db role_code_admin (view s)) (view s))
          (bootstrap_body db user s)
  unfolding bootstrap_body error_is
  body_runs user s = elim (db.first_role_lem (λ r. collates r.code role_code_admin) s) [
    | broken text p q ↦ rw p (faults _ refl refl)
    | done p q ↦ elim (Option-cases (role_of db role_code_admin (view s))) [
      | inl missing ↦ rw (p, missing) (refuses _ refl refl)
      | inr (r, found) ↦
          let s1 = (db.first_role (λ r. collates r.code role_code_admin) s).1 in
          let holds : UserRole → Bool = λ ur. eq_ℤ ur.role_id r.id in
          elim (db.count_user_roles_lem holds s1) [
            | broken text p2 q2 ↦ rw (p, found, p2) (faults _ refl refl)
            | done p2 q2 ↦
                let flip = ltb-count_if holds (view s).user_roles in
                elim (Bool-cases (any holds (view s).user_roles)) [
                  | inl has ↦ rw (p, found, p2, q, flip, has) (refuses _ refl refl)
                  | inr lacks ↦
                      let s2 = (db.count_user_roles holds s1).1 in
                      rw (p, found, p2, q, flip, lacks)
                        (names_run user r (view s) s2 (q2 ∙ q) found)
                ]
          ]
    ]
  ]

  hash-Keeps :
      (username : String) (r : Result String) (s : State)
      → Keeps view IsFault (hash_verdict db username r (view s)) (view s) (
          resume
            (λ hash. db.transaction (Unit {0}) (bootstrap_body db (new_user username hash)))
            (map_error (wrapped "hash administrator password") r)
            s)
  hash-Keeps username (err e) s = refusal _ refl refl refl
  hash-Keeps username (ok hash) s =
      let user = new_user username hash in
      settles view IsFault (λ t. admin_verdict db user (role_of db role_code_admin t) t) _
        external-IsFault (body_runs user) s _ (db.transaction_lem (Unit {0}) _ s)

  -- `BootstrapAdmin` ends as its verdict says, or reports a failure of the database and changes
  -- nothing: no administrator is left with one of the two roles.
  pub bootstrap_admin-Implements :
      (bcrypt : Bcrypt) (svc : UserService) (name password : String)
      → Implements view IsFault
          (bootstrap_verdict db bcrypt svc name password)
          (bootstrap_admin db bcrypt svc name password)
  unfolding bootstrap_admin
  bootstrap_admin-Implements bcrypt svc name password s =
      elim (Bool-cases (ltb (len (trim_space name)) 3)) [
        | inl short ↦ rw short (refusal _ refl refl refl)
        | inr long ↦ elim (Bool-cases (is_bad_password password)) [
          | inl bad ↦ rw (long, bad) (refusal _ refl refl refl)
          | inr good ↦ elim (Bool-cases svc.initialized) [
            | inr missing ↦ rw (long, good, missing) (refusal _ refl refl refl)
            | inl ready ↦ elim (Bool-cases svc.has_rbac_repo) [
              | inr without ↦ rw (long, good, ready, without) (refusal _ refl refl refl)
              | inl there ↦
                  rw (long, good, ready, there)
                    (hash-Keeps (trim_space name) (bcrypt.generate password) s)
            ]
          ]
        ]
      ]
