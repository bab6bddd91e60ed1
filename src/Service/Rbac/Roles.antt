-- ===== src/Service/Rbac/Roles.antt =====
-- `AssignRolesToUser`: the verdict on a request, and the rows of after.
use go_user_system.Common.{
  String, Bool, false, not, Option, none, some, if◌then◌else◌, first, any, drop_if, List, [], ◌∷◌,
  ◌≡◌, refl, ◌∙◌, ap, Bool-cases, Option-cases, inl, inr,
}
use go_user_system.Common.Int.{ℤ, pos, leb_ℤ, eq_ℤ}
use go_user_system.Errors.{
  Error, sentinel, app, app_wrap, wrapped, token, record_not_found, admin_already_bootstrapped,
  rbac_not_initialized, external, equals_role_not_found, error_is, Sentinel, invalid_user_id,
  repository_role_not_found,
}
use go_user_system.Model.{Role}
use go_user_system.Result.{Result, ok, err, Result-cases}
use go_user_system.Database.{
  Database, Tables, Refines, done, broken, same_user_role, add_user_role, duplicate_entry,
}
use go_user_system.Repository.Rbac.{
  user_role, find_role_by_code, find_roles_by_codes, create_user_roles, replace_user_roles_by_codes,
}
use go_user_system.Service.Promise.{
  Verdict, refused, accepted, wrap, IsFault, external-IsFault, Runs, refuses, succeeds, faults,
  refusal, Implements, settles, wraps,
}
use go_user_system.Service.Rbac.{normalize, assign_error, is_nil, assign_roles_to_user}

-- The chain of causes of a fault does not end in a missing role.
pub fault-role : (e : Error) → IsFault e → error_is equals_role_not_found e ≡ false
unfolding error_is
fault-role (sentinel x) h = refl
fault-role (app status code message) h = refl
fault-role (app_wrap status code message cause) h = fault-role cause h
fault-role (wrapped message cause) h = fault-role cause h
fault-role (token x) h = refl
fault-role record_not_found h = refl
fault-role repository_role_not_found h = absurd (cc)
fault-role admin_already_bootstrapped h = refl
fault-role rbac_not_initialized h = refl
fault-role (external text) h = refl

abbrev pub put_first : Role → Result (List Role) → Result (List Role)
put_first r (ok roles) = ok (r ∷ roles)
put_first r (err e) = err e

abbrev pub by_first : Option Role → Result (List Role) → Result (List Role)
by_first none rest = err repository_role_not_found
by_first (some r) rest = put_first r rest

-- The rows of a user's new roles, one after the other; a role that comes twice is refused.
unfoldable pub add_roles : ℤ → List Role → Tables → Verdict (Unit {0})
add_roles user_id [] t = accepted tt t
add_roles user_id (r ∷ roles) t =
    if any (same_user_role (user_role user_id r)) t.user_roles
    then refused duplicate_entry
    else add_roles user_id roles (add_user_role (user_role user_id r) t)

abbrev pub without_roles : ℤ → Tables → Tables
without_roles user_id t = record t {
  user_roles = drop_if (λ ur. eq_ℤ ur.user_id user_id) t.user_roles;
}

abbrev pub replace_verdict : ℤ → Result (List Role) → Tables → Verdict (Unit {0})
replace_verdict user_id (err e) t = refused e
replace_verdict user_id (ok roles) t = add_roles user_id roles (without_roles user_id t)

module _ (db : Database) where
  open db use {State, view, collates}

  -- The roles of the codes, in the order of the codes.
  unfoldable pub roles_of : List String → Tables → Result (List Role)
  roles_of [] t = ok []
  roles_of (c ∷ codes) t = by_first (first (λ r. collates r.code c) t.roles) (roles_of codes t)

  abbrev pub normalized_verdict : ℤ → Tables → Result (List String) → Verdict (Unit {0})
  normalized_verdict user_id t (err e) = refused e
  normalized_verdict user_id t (ok codes) =
      wrap assign_error (replace_verdict user_id (roles_of codes t) t)

  pub find_roles_lem :
      (codes : List String)
      → Refines view (λ t. (roles_of codes t, t)) (find_roles_by_codes db codes)
  unfolding find_roles_by_codes find_role_by_code roles_of error_is
  find_roles_lem [] s = done refl refl
  find_roles_lem (c ∷ codes) s = elim (db.first_role_lem (λ r. collates r.code c) s) [
    | broken text p q ↦ rw p (broken text refl q)
    | done p q ↦ elim (Option-cases (first (λ r. collates r.code c) (view s).roles)) [
      | inl missing ↦ rw (p, missing) (done refl q)
      | inr (r, found) ↦
          let s1 = (db.first_role (λ r. collates r.code c) s).1 in
          elim (find_roles_lem codes s1) [
            | broken text p2 q2 ↦ rw (p, found, p2) (broken text refl (q2 ∙ q))
            | done p2 q2 ↦
                let p3 = rw q at p2 in
                elim (Result-cases (roles_of codes (view s))) [
                  | inl (roles, all_found) ↦ rw (p, found, p3, all_found) (done refl (q2 ∙ q))
                  | inr (e, lost) ↦ rw (p, found, p3, lost) (done refl (q2 ∙ q))
                ]
          ]
    ]
  ]

  create_runs :
      (user_id : ℤ) (roles : List Role) (t : Tables) (s : State)
      → view s ≡ t
      → Runs view IsFault (add_roles user_id roles t) (create_user_roles db user_id roles s)
  unfolding add_roles create_user_roles error_is
  create_runs user_id [] t s same = succeeds _ _ refl refl same
  create_runs user_id (r ∷ roles) t s same =
      elim (db.create_user_role_lem (user_role user_id r) s) [
        | broken text p q ↦ rw p (faults _ refl refl)
        | done p q ↦
            let p' = rw same at p in
            elim (Bool-cases (any (same_user_role (user_role user_id r)) t.user_roles)) [
              | inl has ↦ rw (p', has) (refuses _ refl refl)
              | inr lacks ↦
                  rw (p', lacks)
                    (create_runs user_id roles (add_user_role (user_role user_id r) t) _
                      (q ∙ rw (same, lacks)))
            ]
      ]

  replace_runs :
      (user_id : ℤ) (codes : List String) (s : State)
      → Runs view IsFault
          (replace_verdict user_id (roles_of codes (view s)) (view s))
          (replace_user_roles_by_codes db user_id codes s)
  unfolding replace_user_roles_by_codes error_is
  replace_runs user_id codes s = elim (find_roles_lem codes s) [
    | broken text p q ↦ rw p (faults _ refl refl)
    | done p q ↦ elim (Result-cases (roles_of codes (view s))) [
      | inr (e, lost) ↦ rw (p, lost) (refuses _ refl refl)
      | inl (roles, found) ↦
          let s1 = (find_roles_by_codes db codes s).1 in
          elim (db.delete_user_roles_lem (λ ur. eq_ℤ ur.user_id user_id) s1) [
            | broken text p2 q2 ↦ rw (p, found, p2) (faults _ refl refl)
            | done p2 q2 ↦
                rw (p, found, p2)
                  (create_runs user_id roles (without_roles user_id (view s)) _
                    (q2 ∙ ap (without_roles user_id) q))
          ]
    ]
  ]

  assign_error-IsFault : (e : Error) → IsFault e → IsFault (assign_error e)
  unfolding error_is
  assign_error-IsFault e h = rw (fault-role e h) h

  -- The list of codes is checked and cleaned of repetitions before the transaction begins.
  abbrev pub assign_verdict : Bool → ℤ → List String → Tables → Verdict (Unit {0})
  assign_verdict initialized user_id codes t =
      if leb_ℤ user_id (pos 0)
      then refused (sentinel invalid_user_id)
      else if is_nil codes
      then refused (sentinel Sentinel.role_not_found)
      else if not initialized
      then refused (sentinel Sentinel.database_not_initialized)
      else normalized_verdict user_id t (normalize [] codes)

  -- `AssignRolesToUser` ends as its verdict says, or reports a failure of the database and changes
  -- nothing: the user has either all of the new roles and no other, or the roles of before.
  pub assign_roles_to_user-Implements :
      (initialized : Bool) (user_id : ℤ) (codes : List String)
      → Implements view IsFault
          (assign_verdict initialized user_id codes)
          (assign_roles_to_user db initialized user_id codes)
  unfolding assign_roles_to_user
  assign_roles_to_user-Implements initialized user_id codes s =
      elim (Bool-cases (leb_ℤ user_id (pos 0))) [
        | inl bad ↦ rw bad (refusal _ refl refl refl)
        | inr good ↦ elim (Bool-cases (is_nil codes)) [
          | inl empty ↦ rw (good, empty) (refusal _ refl refl refl)
          | inr full ↦ elim (Bool-cases initialized) [
            | inr missing ↦ rw (good, full, missing) (refusal _ refl refl refl)
            | inl ready ↦ elim (Result-cases (normalize [] codes)) [
              | inr (e, blank) ↦ rw (good, full, ready, blank) (refusal _ refl refl refl)
              | inl (clean, made) ↦
                  rw (good, full, ready, made)
                    (wraps view IsFault assign_error
                      (λ t. replace_verdict user_id (roles_of clean t) t) (view s) _
                      assign_error-IsFault
                      (settles view IsFault (λ t. replace_verdict user_id (roles_of clean t) t) _
                        external-IsFault (replace_runs user_id clean) s _
                        (db.transaction_lem (Unit {0}) _ s)))
            ]
          ]
        ]
      ]
