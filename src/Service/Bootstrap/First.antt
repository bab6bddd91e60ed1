-- ===== src/Service/Bootstrap/First.antt =====
-- `BootstrapAdmin`: who is an administrator before and after a success.
use Prim.Native.String.{len}
use go_user_system.Common.{
  String, true, false, Option, none, some, any, any-append, List, [], ◌∷◌, ltb, ◌≡◌, ◌≢◌, ◌∙◌,
  Bool-cases, Option-cases, inl, inr, arith,
}
use go_user_system.Common.Int.{ℤ, eq_ℤ}
use go_user_system.Common.Text.{trim_space}
use go_user_system.Model.{User, Role, UserRole, role_code_admin, role_code_user}
use go_user_system.Result.{ok, Result-cases}
use go_user_system.Database.{Database, Tables, same_user_role}
use go_user_system.Repository.Rbac.{user_role}
use go_user_system.Service.Promise.{accepted, refusal, success, fault}
use go_user_system.Service.User.{Bcrypt, UserService, new_user, is_bad_password}
use go_user_system.Service.User.Register.{with_role, with_user, is_taken}
use go_user_system.Service.Bootstrap.{bootstrap_admin}
use go_user_system.Service.Bootstrap.Promised.{
  with_role-roles, role_of, has_admin, has_holder, is_named, with_admin, admin_verdict,
  bootstrap_verdict,
}
use go_user_system.Service.Bootstrap.Kept.{bootstrap_admin-Implements}

same_holds :
    (user_id : ℤ) (r : Role) (rows : List UserRole)
    → any (same_user_role (user_role user_id r)) rows ≡ true
    → any (λ ur. eq_ℤ ur.role_id r.id) rows ≡ true
same_holds user_id r [] h = absurd (cc)
same_holds user_id r (ur ∷ rows) h = ground (arith, same_holds user_id r rows)

given_holds :
    (db : Database) (user_id : ℤ) (r : Role) (t : Tables)
    → has_holder db (some r) (with_role (user_role user_id r) t) ≡ true
given_holds db user_id r t =
    elim (Bool-cases (any (same_user_role (user_role user_id r)) t.user_roles)) [
      | inl has ↦ rw has (same_holds user_id r t.user_roles has)
      | inr lacks ↦
          rw
            (lacks, any-append (λ ur. eq_ℤ ur.role_id r.id) t.user_roles (user_role user_id r ∷ []))
            (ground arith)
    ]

module _ (db : Database) where
  open db use {State, view}

  with_admin-holds :
      (user : User) (admin : Role) (m : Option Role) (t u : Tables) (a : Unit {0})
      → role_of db role_code_admin t ≡ some admin
      → with_admin db user admin m t ≡ accepted a u
      → has_admin db u ≡ true
  with_admin-holds user admin none t u a found h = absurd (cc)
  with_admin-holds user admin (some m) t u a found h =
      let one = with_role (user_role t.next_user_id m) (with_user user t) in
      let two = with_role (user_role t.next_user_id admin) one in
      let this : u ≡ two = cc in
      let roles : two.roles ≡ t.roles =
        with_role-roles (user_role t.next_user_id admin) one
        ∙ with_role-roles (user_role t.next_user_id m) (with_user user t) in
      let there : role_of db role_code_admin two ≡ some admin = rw roles found in
      rw this (rw there (given_holds db t.next_user_id admin one))

  admin_verdict-first :
      (user : User) (t u : Tables) (a : Unit {0})
      → admin_verdict db user (role_of db role_code_admin t) t ≡ accepted a u
      → (has_admin db t ≡ false) × (has_admin db u ≡ true)
  admin_verdict-first user t u a h = elim (Option-cases (role_of db role_code_admin t)) [
    | inl missing ↦ absurd (let k = rw missing at h in cc)
    | inr (admin, found) ↦ elim (Bool-cases (has_holder db (some admin) t)) [
      | inl has ↦ absurd (let k = rw (found, has) at h in cc)
      | inr lacks ↦ elim (Bool-cases (is_named db user.username t)) [
        | inl named ↦ absurd (let k = rw (found, lacks, named) at h in cc)
        | inr free ↦ elim (Bool-cases (is_taken db user.username t)) [
          | inl taken ↦ absurd (let k = rw (found, lacks, free, taken) at h in cc)
          | inr fresh ↦ (
            rw found lacks,
            with_admin-holds user admin (role_of db role_code_user t) t u a found
                (rw (found, lacks, free, fresh) at h),
          )
        ]
      ]
    ]
  ]

  bootstrap_verdict-first :
      (bcrypt : Bcrypt) (svc : UserService) (name password : String) (t u : Tables) (a : Unit {0})
      → bootstrap_verdict db bcrypt svc name password t ≡ accepted a u
      → (has_admin db t ≡ false) × (has_admin db u ≡ true)
  bootstrap_verdict-first bcrypt svc name password t u a h =
      elim (Bool-cases (ltb (len (trim_space name)) 3)) [
        | inl short ↦ absurd (let k = rw short at h in cc)
        | inr long ↦ elim (Bool-cases (is_bad_password password)) [
          | inl bad ↦ absurd (let k = rw (long, bad) at h in cc)
          | inr good ↦ elim (Bool-cases svc.initialized) [
            | inr missing ↦ absurd (let k = rw (long, good, missing) at h in cc)
            | inl ready ↦ elim (Bool-cases svc.has_rbac_repo) [
              | inr without ↦ absurd (let k = rw (long, good, ready, without) at h in cc)
              | inl there ↦ elim (Result-cases (bcrypt.generate password)) [
                | inr (e, lost) ↦ absurd (let k = rw (long, good, ready, there, lost) at h in cc)
                | inl (hash, made) ↦
                    admin_verdict-first (new_user (trim_space name) hash) t u a
                      (rw (long, good, ready, there, made) at h)
              ]
            ]
          ]
        ]
      ]

  bootstrap_admin-toggles :
      (bcrypt : Bcrypt) (svc : UserService) (name password : String) (s : State)
      → (bootstrap_admin db bcrypt svc name password s).0 ≡ ok tt
      → (has_admin db (view s) ≡ false)
        × (has_admin db (view (bootstrap_admin db bcrypt svc name password s).1) ≡ true)
  bootstrap_admin-toggles bcrypt svc name password s done =
      elim (bootstrap_admin-Implements db bcrypt svc name password s) [
        | refusal e v p q ↦ absurd (cc)
        | success a u v p q ↦
            let (before, after) = bootstrap_verdict-first bcrypt svc name password (view s) u a v in
            (before, rw q after)
        | fault e p i q ↦ absurd (cc)
      ]

  -- `BootstrapAdmin` succeeds only where nobody is an administrator, and leaves one; so of two
  -- requests in a row only one succeeds, whoever makes them.
  pub bootstrap_admin_first :
      (bcrypt : Bcrypt) (svc svc' : UserService) (name name' password password' : String)
      (s : State)
      → (bootstrap_admin db bcrypt svc name password s).0 ≡ ok tt
      → let t = (bootstrap_admin db bcrypt svc name password s).1 in
        (has_admin db (view s) ≡ false)
        × (has_admin db (view t) ≡ true)
        × ((bootstrap_admin db bcrypt svc' name' password' t).0 ≢ ok tt)
  bootstrap_admin_first bcrypt svc svc' name name' password password' s done =
      let (before, after) = bootstrap_admin-toggles bcrypt svc name password s done in
      (
        before,
        after,
        λ again.
            let (none_there, _) = bootstrap_admin-toggles bcrypt svc' name' password' _ again in
            absurd (cc),
      )
