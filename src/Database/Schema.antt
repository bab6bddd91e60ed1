-- ===== src/Database/Schema.antt =====
-- The tables, and the meaning of each statement on them. Rows stand in the order of their primary
-- keys. A user with a deletion time is not seen, as gorm arranges for a field DeletedAt.
use go_user_system.Common.{
  String, ℕ, Bool, true, false, ◌&&◌, ◌||◌, Option, none, some, List, [], ◌∷◌, ◌++◌, if◌then◌else◌,
  first, count_if, update_if, drop_if, any,
}
use go_user_system.Common.Int.{ℤ, pos, ◌+ℤ◌, eq_ℤ}
use go_user_system.Errors.{Error, record_not_found, external}
use go_user_system.Model.{
  User, RefreshToken, Role, Permission, UserRole, RolePermission, with_defaults,
}
use go_user_system.Result.{Result, ok, err}

pub record Tables : Type 0 where
  pub users : List User
  pub tokens : List RefreshToken
  pub roles : List Role
  pub permissions : List Permission
  pub user_roles : List UserRole
  pub role_permissions : List RolePermission
  pub next_user_id : ℤ
  pub next_token_id : ℤ

abbrev pub or_not_found : {A : Type 0} → Option A → Result A
or_not_found none = err record_not_found
or_not_found (some a) = ok a

abbrev pub is_none : {A : Type 0} → Option A → Bool
is_none none = true
is_none (some a) = false

-- The error of a statement that breaks a unique key; its text is the driver's.
abbrev pub duplicate_entry : Error
duplicate_entry = external "duplicate entry"

abbrev pub visible : (User → Bool) → User → Bool
visible p u = is_none u.deleted_at && p u

abbrev pub first_user_of : (User → Bool) → Tables → Result User × Tables
first_user_of p t = (or_not_found (first (visible p) t.users), t)

-- The number is that of the rows that the condition selects.
abbrev pub update_users_of : (User → Bool) → (User → User) → Tables → Result ℕ × Tables
update_users_of p f t =
    (ok (count_if (visible p) t.users), record t { users = update_if (visible p) f t.users })

abbrev pub create_user_of : (String → String → Bool) → User → Tables → Result ℤ × Tables
create_user_of collates u t =
    if any (λ v. collates v.username u.username) t.users then (err duplicate_entry, t) else (
      ok t.next_user_id,
      record t {
        users = t.users ++ with_defaults (record u { id = t.next_user_id }) ∷ [];
        next_user_id = t.next_user_id +ℤ pos 1;
      },
    )

abbrev pub first_token_of : (RefreshToken → Bool) → Tables → Result RefreshToken × Tables
first_token_of p t = (or_not_found (first p t.tokens), t)

abbrev pub update_tokens_of :
    (RefreshToken → Bool) → (RefreshToken → RefreshToken) → Tables → Result ℕ × Tables
update_tokens_of p f t = (ok (count_if p t.tokens), record t { tokens = update_if p f t.tokens })

-- A row that holds a unique key of a new one.
abbrev pub clashes : (String → String → Bool) → RefreshToken → RefreshToken → Bool
clashes collates r q = collates q.jti r.jti || collates q.token_hash r.token_hash

abbrev pub create_token_of : (String → String → Bool) → RefreshToken → Tables → Result ℤ × Tables
create_token_of collates r t =
    if any (clashes collates r) t.tokens then (err duplicate_entry, t) else (
      ok t.next_token_id,
      record t {
        tokens = t.tokens ++ record r { id = t.next_token_id } ∷ [];
        next_token_id = t.next_token_id +ℤ pos 1;
      },
    )

abbrev pub first_role_of : (Role → Bool) → Tables → Result Role × Tables
first_role_of p t = (or_not_found (first p t.roles), t)

abbrev pub find_roles_of : Tables → Result (List Role) × Tables
find_roles_of t = (ok t.roles, t)

abbrev pub find_permissions_of : Tables → Result (List Permission) × Tables
find_permissions_of t = (ok t.permissions, t)

abbrev pub count_user_roles_of : (UserRole → Bool) → Tables → Result ℕ × Tables
count_user_roles_of p t = (ok (count_if p t.user_roles), t)

abbrev pub same_user_role : UserRole → UserRole → Bool
same_user_role r q = eq_ℤ r.user_id q.user_id && eq_ℤ r.role_id q.role_id

abbrev pub add_user_role : UserRole → Tables → Tables
add_user_role r t = record t { user_roles = t.user_roles ++ r ∷ [] }

abbrev pub first_or_create_user_role_of : UserRole → Tables → Result (Unit {0}) × Tables
first_or_create_user_role_of r t =
    if any (same_user_role r) t.user_roles then (ok tt, t) else (ok tt, add_user_role r t)

abbrev pub create_user_role_of : UserRole → Tables → Result (Unit {0}) × Tables
create_user_role_of r t =
    if any (same_user_role r) t.user_roles
    then (err duplicate_entry, t)
    else (ok tt, add_user_role r t)

abbrev pub delete_user_roles_of : (UserRole → Bool) → Tables → Result (Unit {0}) × Tables
delete_user_roles_of p t = (ok tt, record t { user_roles = drop_if p t.user_roles })

-- `user_roles AS ur JOIN role_permissions AS rp … JOIN permissions AS p …`: the permissions that
-- a role of a selected row carries, each as often as it is reached.
abbrev pub carries : Tables → ℤ → ℤ → Bool
carries t role_id permission_id =
    any (λ rp. eq_ℤ rp.role_id role_id && eq_ℤ rp.permission_id permission_id) t.role_permissions

abbrev pub select : {A : Type 0} → (A → Bool) → List A → List A
select p [] = []
select p (x ∷ xs) = if p x then x ∷ select p xs else select p xs

abbrev pub join_permissions_in :
    Tables → (UserRole → Permission → Bool) → List UserRole → List Permission
join_permissions_in t p [] = []
join_permissions_in t p (ur ∷ more) =
    select (λ q. carries t ur.role_id q.id && p ur q) t.permissions ++ join_permissions_in t p more

abbrev pub join_permissions_of :
    (UserRole → Permission → Bool) → Tables → Result (List Permission) × Tables
join_permissions_of p t = (ok (join_permissions_in t p t.user_roles), t)

abbrev pub join_roles_in : Tables → (UserRole → Role → Bool) → List UserRole → List Role
join_roles_in t p [] = []
join_roles_in t p (ur ∷ more) =
    select (λ r. eq_ℤ r.id ur.role_id && p ur r) t.roles ++ join_roles_in t p more

abbrev pub join_roles_of : (UserRole → Role → Bool) → Tables → Result (List Role) × Tables
join_roles_of p t = (ok (join_roles_in t p t.user_roles), t)
