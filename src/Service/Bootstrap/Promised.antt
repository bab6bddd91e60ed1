-- ===== src/Service/Bootstrap/Promised.antt =====
-- `BootstrapAdmin`: the verdict on a request, and the statements that give the two roles.
use Prim.Native.String.{len}
use go_user_system.Common.{
  String, Bool, false, not, Option, none, some, if◌then◌else◌, first, any, count_if, List, [], ◌∷◌,
  ltb, ◌≡◌, refl, ◌∙◌, Bool-cases, Option-cases, inl, inr, arith,
}
use go_user_system.Common.Int.{ℤ, eq_ℤ}
use go_user_system.Common.Text.{trim_space}
use go_user_system.Errors.{
  Error, sentinel, wrapped, error_is, Sentinel, repository_role_not_found, rbac_not_initialized,
  admin_already_bootstrapped,
}
use go_user_system.Model.{User, Role, UserRole, role_code_admin, role_code_user}
use go_user_system.Result.{Result, ok, err, map_error, resume, on_error}
use go_user_system.Database.{
  Database, Tables, done, broken, visible, duplicate_entry, same_user_role,
}
use go_user_system.Repository.Rbac.{user_role, find_role_by_code, assign_role_to_user_by_code}
use go_user_system.Service.Promise.{
  Verdict, refused, accepted, wrap, Runs, refuses, succeeds, faults, wraps_runs, IsFault,
}
use go_user_system.Service.User.{Bcrypt, UserService, new_user, is_bad_password}
use go_user_system.Service.User.Register.{with_role, with_user, is_taken}
use go_user_system.Service.Rbac.Roles.{fault-role}
use go_user_system.Service.Bootstrap.{user_role_error}

pub ltb-count_if : {A : Type 0} (p : A → Bool) (xs : List A) → ltb 0 (count_if p xs) ≡ any p xs
ltb-count_if p [] = refl
ltb-count_if p (x ∷ xs) = ground (arith, ltb-count_if p xs)

abbrev given : ℤ → Tables → Option Role → Verdict (Unit {0})
given user_id t none = refused repository_role_not_found
given user_id t (some r) = accepted tt (with_role (user_role user_id r) t)

pub with_role-roles : (r : UserRole) (t : Tables) → (with_role r t).roles ≡ t.roles
with_role-roles r t = elim (Bool-cases (any (same_user_role r) t.user_roles)) [
  | inl has ↦ rw has refl
  | inr lacks ↦ rw lacks refl
]

module _ (db : Database) where
  open db use {State, view, collates}

  abbrev pub role_of : String → Tables → Option Role
  role_of role_code t = first (λ r. collates r.code role_code) t.roles

  -- Someone has the role of administrators.
  abbrev pub has_holder : Option Role → Tables → Bool
  has_holder none t = false
  has_holder (some r) t = any (λ ur. eq_ℤ ur.role_id r.id) t.user_roles

  abbrev pub has_admin : Tables → Bool
  has_admin t = has_holder (role_of role_code_admin t) t

  -- A user that is not deleted has the name.
  abbrev pub is_named : String → Tables → Bool
  is_named username t = any (visible (λ u. collates u.username username)) t.users

  abbrev pub with_admin : User → Role → Option Role → Tables → Verdict (Unit {0})
  with_admin user admin none t = refused rbac_not_initialized
  with_admin user admin (some member) t = accepted tt (
      with_role (user_role t.next_user_id admin)
        (with_role (user_role t.next_user_id member) (with_user user t)))

  abbrev pub admin_verdict : User → Option Role → Tables → Verdict (Unit {0})
  admin_verdict user none t = refused rbac_not_initialized
  admin_verdict user (some admin) t =
      if has_holder (some admin) t
      then refused admin_already_bootstrapped
      else if is_named user.username t
      then refused (sentinel Sentinel.username_already_exists)
      else if is_taken db user.username t
      then refused (wrapped "create administrator" duplicate_entry)
      else with_admin user admin (role_of role_code_user t) t

  abbrev pub hash_verdict : String → Result String → Tables → Verdict (Unit {0})
  hash_verdict username (err e) t = refused (wrapped "hash administrator password" e)
  hash_verdict username (ok hash) t =
      admin_verdict (new_user username hash) (role_of role_code_admin t) t

  -- A request with a name of at least three bytes and a good password creates the user, with the
  -- roles of a user and of an administrator, if both roles are there, nobody is an administrator,
  -- and no row has the name.
  abbrev pub bootstrap_verdict :
      Bcrypt → UserService → String → String → Tables → Verdict (Unit {0})
  bootstrap_verdict bcrypt svc name password t =
      if ltb (len (trim_space name)) 3
      then refused (sentinel Sentinel.username_too_short)
      else if is_bad_password password
      then refused (sentinel Sentinel.password_too_short_or_too_long)
      else if not svc.initialized
      then refused (sentinel Sentinel.database_not_initialized)
      else if not svc.has_rbac_repo
      then refused rbac_not_initialized
      else hash_verdict (trim_space name) (bcrypt.generate password) t

  assign_runs :
      (user_id : ℤ) (role_code : String) (t : Tables) (s : State)
      → view s ≡ t
      → Runs view IsFault
          (given user_id t (role_of role_code t))
          (assign_role_to_user_by_code db user_id role_code s)
  unfolding assign_role_to_user_by_code find_role_by_code error_is
  assign_runs user_id role_code t s same =
      elim (db.first_role_lem (λ r. collates r.code role_code) s) [
        | broken text p q ↦ rw p (faults _ refl refl)
        | done p q ↦
            let p' = rw same at p in
            elim (Option-cases (role_of role_code t)) [
              | inl missing ↦ rw (p', missing) (refuses _ refl refl)
              | inr (r, found) ↦
                  let s1 = (db.first_role (λ r. collates r.code role_code) s).1 in
                  let row = user_role user_id r in
                  elim (db.first_or_create_user_role_lem row s1) [
                    | broken text p2 q2 ↦ rw (p', found, p2) (faults _ refl refl)
                    | done p2 q2 ↦ elim (Bool-cases (any (same_user_role row) t.user_roles)) [
                      | inl has ↦
                          rw (p', found, p2, q, same, has)
                            (succeeds _ _ refl refl (q2 ∙ rw (q, same, has)))
                      | inr lacks ↦
                          rw (p', found, p2, q, same, lacks)
                            (succeeds _ _ refl refl (q2 ∙ rw (q, same, lacks)))
                    ]
                  ]
            ]
      ]

  wrapped-IsFault : (text : String) (e : Error) → IsFault e → IsFault (wrapped text e)
  unfolding error_is
  wrapped-IsFault text e h = h

  user_role_error-IsFault : (e : Error) → IsFault e → IsFault (user_role_error e)
  unfolding error_is
  user_role_error-IsFault e h = rw (fault-role e h) h

  -- The last statement: the role of administrators is there, since its row is locked.
  ends_with_admin :
      (user_id : ℤ) (admin : Role) (t : Tables) (s : State)
      → view s ≡ t
      → role_of role_code_admin t ≡ some admin
      → Runs view IsFault (accepted tt (with_role (user_role user_id admin) t)) (
        map_error
            (wrapped "assign administrator role")
            (assign_role_to_user_by_code db user_id role_code_admin s).0,
        (assign_role_to_user_by_code db user_id role_code_admin s).1,
      )
  ends_with_admin user_id admin t s same found =
      let text : String = "assign administrator role" in
      let o = assign_role_to_user_by_code db user_id role_code_admin s in
      let ended : Runs view IsFault
          (wrap (wrapped text) (given user_id t (role_of role_code_admin t)))
          (map_error (wrapped text) o.0, o.1) =
        wraps_runs view IsFault (wrapped text) (given user_id t (role_of role_code_admin t)) o
          (wrapped-IsFault text) (assign_runs user_id role_code_admin t s same) in
      rw found at ended

  pub gives_roles :
      (user : User) (admin : Role) (t : Tables) (s : State)
      → view s ≡ with_user user t
      → role_of role_code_admin t ≡ some admin
      → Runs view IsFault (with_admin user admin (role_of role_code_user t) t) (
          resume
            (λ _.
              on_error
                (wrapped "assign administrator role")
                (assign_role_to_user_by_code db t.next_user_id role_code_admin))
            (map_error user_role_error
              (assign_role_to_user_by_code db t.next_user_id role_code_user s).0)
            (assign_role_to_user_by_code db t.next_user_id role_code_user s).1)
  unfolding error_is
  gives_roles user admin t s same found =
      elim (assign_runs t.next_user_id role_code_user (with_user user t) s same) [
        | refuses e v p ↦ elim (Option-cases (role_of role_code_user t)) [
          | inl missing ↦
              let this : e ≡ repository_role_not_found = let k = rw missing at v in cc in
              rw (p, missing, this) (refuses _ refl refl)
          | inr (m, there) ↦ absurd (let k = rw there at v in cc)
        ]
        | succeeds a u v p q ↦ elim (Option-cases (role_of role_code_user t)) [
          | inl missing ↦ absurd (let k = rw missing at v in cc)
          | inr (m, there) ↦
              let next = with_role (user_role t.next_user_id m) (with_user user t) in
              let this : u ≡ next = let k = rw there at v in cc in
              let roles : next.roles ≡ t.roles =
                with_role-roles (user_role t.next_user_id m) (with_user user t) in
              rw (p, there)
                (ends_with_admin t.next_user_id admin next _ (q ∙ this) (rw roles found))
        ]
        | faults e p i ↦ rw p (faults _ refl (user_role_error-IsFault e i))
      ]
