-- ===== src/Database.antt =====
-- What the program takes from gorm and MySQL: statements on the tables of internal/model, and
-- transactions. The database is a parameter of the model. Its laws say that a statement has the
-- meaning that SQL gives it, or fails with an error of the library and changes nothing; and that
-- a transaction is undone when its function returns an error or when it cannot commit.
mod Schema
pub mod Rules
pub mod Reference
pub use Schema.*
use go_user_system.Common.{String, ℕ, Bool, true, ◌≡◌, List}
use go_user_system.Common.Int.{ℤ}
use go_user_system.Errors.{Error, external}
use go_user_system.Model.{User, RefreshToken, Role, Permission, UserRole, RolePermission}
use go_user_system.Result.{Result, ok, err, Action}

module _ {S : Type 0} (view : S → Tables) where
  -- How a statement at a state ended: with the result and the tables of its meaning, or with an
  -- error of the library and the tables of before.
  pub data Acts {A : Type 0} (meaning : Result A × Tables) (s : S) (o : Result A × S) : Type 0 where
    done : o.0 ≡ meaning.0 → view o.1 ≡ meaning.1 → Acts meaning s o
    broken : (text : String) → o.0 ≡ err (external text) → view o.1 ≡ view s → Acts meaning s o

  abbrev pub Refines : {A : Type 0} → (Tables → Result A × Tables) → Action S A → Type 0
  Refines meaning act = (s : S) → Acts (meaning (view s)) s (act s)

  -- How a transaction at a state ended; its function ran at a state with the same tables.
  pub data Ends {A : Type 0} (body : Action S A) (s : S) (o : Result A × S) : Type 0 where
    committed :
        (t : S) (a : A)
        → view t ≡ view s
        → (body t).0 ≡ ok a
        → o.0 ≡ ok a
        → view o.1 ≡ view (body t).1
        → Ends body s o
    rolled_back :
        (t : S) (e : Error)
        → view t ≡ view s
        → (body t).0 ≡ err e
        → o.0 ≡ err e
        → view o.1 ≡ view s
        → Ends body s o
    failed : (text : String) → o.0 ≡ err (external text) → view o.1 ≡ view s → Ends body s o

pub record Database : Type 1 where
  pub State : Type 0
  pub view : State → Tables
  -- The comparison of texts in a condition `column = ?`, by the collation of the tables.
  pub collates : String → String → Bool
  pub collates_refl : (s : String) → collates s s ≡ true
  pub collates_sym : (s t : String) → collates s t ≡ true → collates t s ≡ true
  pub collates_trans :
      (s t u : String) → collates s t ≡ true → collates t u ≡ true → collates s u ≡ true
  pub first_user : (User → Bool) → Action State User
  pub update_users : (User → Bool) → (User → User) → Action State ℕ
  pub create_user : User → Action State ℤ
  pub first_token : (RefreshToken → Bool) → Action State RefreshToken
  pub update_tokens : (RefreshToken → Bool) → (RefreshToken → RefreshToken) → Action State ℕ
  pub create_token : RefreshToken → Action State ℤ
  pub first_role : (Role → Bool) → Action State Role
  pub find_roles : Action State (List Role)
  pub find_permissions : Action State (List Permission)
  pub count_user_roles : (UserRole → Bool) → Action State ℕ
  pub first_or_create_user_role : UserRole → Action State (Unit {0})
  pub create_user_role : UserRole → Action State (Unit {0})
  pub delete_user_roles : (UserRole → Bool) → Action State (Unit {0})
  pub join_permissions : (UserRole → Permission → Bool) → Action State (List Permission)
  pub join_roles : (UserRole → Role → Bool) → Action State (List Role)
  pub transaction : (A : Type 0) → Action State A → Action State A
  pub first_user_lem : (p : User → Bool) → Refines view (first_user_of p) (first_user p)
  pub update_users_lem :
      (p : User → Bool) (f : User → User) → Refines view (update_users_of p f) (update_users p f)
  pub create_user_lem : (u : User) → Refines view (create_user_of collates u) (create_user u)
  pub first_token_lem : (p : RefreshToken → Bool) → Refines view (first_token_of p) (first_token p)
  pub update_tokens_lem :
      (p : RefreshToken → Bool) (f : RefreshToken → RefreshToken)
      → Refines view (update_tokens_of p f) (update_tokens p f)
  pub create_token_lem :
      (r : RefreshToken) → Refines view (create_token_of collates r) (create_token r)
  pub first_role_lem : (p : Role → Bool) → Refines view (first_role_of p) (first_role p)
  pub find_roles_lem : Refines view find_roles_of find_roles
  pub find_permissions_lem : Refines view find_permissions_of find_permissions
  pub count_user_roles_lem :
      (p : UserRole → Bool) → Refines view (count_user_roles_of p) (count_user_roles p)
  pub first_or_create_user_role_lem :
      (r : UserRole) → Refines view (first_or_create_user_role_of r) (first_or_create_user_role r)
  pub create_user_role_lem :
      (r : UserRole) → Refines view (create_user_role_of r) (create_user_role r)
  pub delete_user_roles_lem :
      (p : UserRole → Bool) → Refines view (delete_user_roles_of p) (delete_user_roles p)
  pub join_permissions_lem :
      (p : UserRole → Permission → Bool) → Refines view (join_permissions_of p) (join_permissions p)
  pub join_roles_lem : (p : UserRole → Role → Bool) → Refines view (join_roles_of p) (join_roles p)
  pub transaction_lem :
      (A : Type 0) (body : Action State A) (s : State) → Ends view body s (transaction A body s)
