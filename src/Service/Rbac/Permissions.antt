-- ===== src/Service/Rbac/Permissions.antt =====
-- `HasPermission`: the permissions that the roles of a user carry.
use go_user_system.Common.{
  String, Bool, ◌&&◌, ◌||◌, not, if◌then◌else◌, any, length, ltb, List, [], ◌∷◌, ◌++◌, ◌≡◌, refl,
  arith, Bool-cases, inl, inr,
}
use go_user_system.Common.Int.{ℤ, pos, leb_ℤ, eq_ℤ}
use go_user_system.Common.Text.{is_blank}
use go_user_system.Errors.{sentinel, error_is, Sentinel}
use go_user_system.Model.{Permission, UserRole}
use go_user_system.Database.{Database, Tables, done, broken, carries, select, join_permissions_in}
use go_user_system.Repository.Rbac.{user_has_permission}
use go_user_system.Service.Promise.{
  Verdict, refused, accepted, IsFault, refusal, success, fault, Implements,
}
use go_user_system.Service.Rbac.{has_permission}

abbrev is_positive : {A : Type 0} → List A → Bool
is_positive xs = ltb 0 (length xs)

positive-select : {A : Type 0} (p : A → Bool) (xs : List A) → is_positive (select p xs) ≡ any p xs
positive-select p [] = refl
positive-select p (x ∷ xs) = ground (arith, positive-select p xs)

positive-append :
    {A : Type 0} (xs ys : List A) → is_positive (xs ++ ys) ≡ (is_positive xs || is_positive ys)
positive-append [] ys = refl
positive-append (x ∷ xs) ys = ground arith

-- Whether a selected row has a role that carries a permission of the condition.
abbrev pub reaches : Tables → (UserRole → Permission → Bool) → List UserRole → Bool
reaches t p = any (λ ur. any (λ q. carries t ur.role_id q.id && p ur q) t.permissions)

positive-join :
    (t : Tables) (p : UserRole → Permission → Bool) (rows : List UserRole)
    → is_positive (join_permissions_in t p rows) ≡ reaches t p rows
positive-join t p [] = refl
positive-join t p (ur ∷ more) =
    rw
      (
        positive-append (select (λ q. carries t ur.role_id q.id && p ur q) t.permissions)
            (join_permissions_in t p more),
        positive-select (λ q. carries t ur.role_id q.id && p ur q) t.permissions,
        positive-join t p more,
      )
      refl

module _ (db : Database) (initialized : Bool) (user_id : ℤ) (permission_code : String) where
  open db use {State, view, collates}

  abbrev pub is_wanted : UserRole → Permission → Bool
  is_wanted ur p = eq_ℤ ur.user_id user_id && collates p.code permission_code

  abbrev pub permission_verdict : Tables → Verdict Bool
  permission_verdict t =
      if leb_ℤ user_id (pos 0) || is_blank permission_code
      then refused (sentinel Sentinel.permission_denied)
      else if not initialized
      then refused (sentinel Sentinel.database_not_initialized)
      else accepted (reaches t is_wanted t.user_roles) t

  -- `HasPermission` says yes exactly if a role of the user carries a permission with the code, or
  -- it reports a failure of the database; it changes nothing.
  pub has_permission-Implements :
      Implements view IsFault permission_verdict
        (has_permission db initialized user_id permission_code)
  unfolding has_permission user_has_permission error_is
  has_permission-Implements s =
      elim (Bool-cases (leb_ℤ user_id (pos 0) || is_blank permission_code)) [
        | inl bad ↦ rw bad (refusal _ refl refl refl)
        | inr good ↦ elim (Bool-cases initialized) [
          | inr missing ↦ rw (good, missing) (refusal _ refl refl refl)
          | inl ready ↦ elim (db.join_permissions_lem is_wanted s) [
            | broken text p q ↦ rw (good, ready, p) (fault _ refl refl q)
            | done p q ↦
                rw (good, ready, p, positive-join (view s) is_wanted (view s).user_roles)
                  (success _ _ refl refl q)
          ]
        ]
      ]
