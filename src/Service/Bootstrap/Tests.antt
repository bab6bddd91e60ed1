-- ===== src/Service/Bootstrap/Tests.antt =====
-- Bootstraps on the reference database, and instances of the theorems. The hash of a password is
-- the password behind a mark.
use Prim.Native.String.{◌++◌}
use go_user_system.Common.{String, true, false, ◌≡◌, ◌≢◌, refl, [], ◌∷◌, str_eq}
use go_user_system.Common.Int.{pos, ◌+ℤ◌}
use go_user_system.Common.Text.{trim_space}
use go_user_system.Errors.{error_is, rbac_not_initialized, admin_already_bootstrapped}
use go_user_system.Model.{Role, role_code_user, role_code_admin, with_defaults}
use go_user_system.Result.{Result, ok, err}
use go_user_system.Database.{Tables}
use go_user_system.Database.Reference.{reference}
use go_user_system.Dao.{create_user, get_user_by_username}
use go_user_system.Repository.Rbac.{find_role_by_code, assign_role_to_user_by_code}
use go_user_system.Service.Promise.{Keeps, IsFault}
use go_user_system.Service.User.{Bcrypt, UserService}
use go_user_system.Service.Bootstrap.{create_admin, bootstrap_body, bootstrap_admin}
use go_user_system.Service.Bootstrap.Promised.{bootstrap_verdict, has_admin}
use go_user_system.Service.Bootstrap.Kept.{bootstrap_admin-Implements}
use go_user_system.Service.Bootstrap.First.{bootstrap_admin_first}

bootstraps : Unit {0}
unfolding create_admin bootstrap_body bootstrap_admin create_user get_user_by_username
    find_role_by_code assign_role_to_user_by_code error_is ◌+ℤ◌ trim_space with_defaults
bootstraps = tt

abbrev plain : Bcrypt
plain = record {
  generate = λ password. ok ("#" ++ password);
  matches = λ hash password. str_eq hash ("#" ++ password);
}

abbrev whole : UserService
whole = record { initialized = true; has_refresh_repo = true; has_rbac_repo = true }

abbrev member : Role
member = record { id = pos 3; code = role_code_user; name = "member" }

abbrev chief : Role
chief = record { id = pos 4; code = role_code_admin; name = "chief" }

abbrev empty : Tables
empty = record {
  users = [];
  tokens = [];
  roles = [];
  permissions = [];
  user_roles = [];
  role_permissions = [];
  next_user_id = pos 1;
  next_token_id = pos 1;
}

abbrev seeded : Tables
seeded = record empty { roles = member ∷ chief ∷ [] }

abbrev bootstrap : String → Tables → Result (Unit {0}) × Tables
bootstrap name t = bootstrap_admin reference plain whole name "a long password" t

bootstrap_tests :
    ((bootstrap "root" seeded).0 ≡ ok tt)
    × ((bootstrap "eve" (bootstrap "root" seeded).1).0 ≡ err admin_already_bootstrapped)
    × ((bootstrap "root" empty).0 ≡ err rbac_not_initialized)
unfolding bootstraps
bootstrap_tests = (refl, refl, refl)

bootstrap_admin-Implements_example :
    Keeps
      (λ t. t)
      IsFault
      (bootstrap_verdict reference plain whole "root" "a long password" seeded)
      seeded
      (bootstrap "root" seeded)
bootstrap_admin-Implements_example =
    bootstrap_admin-Implements reference plain whole "root" "a long password" seeded

bootstrap_admin_first_example :
    (has_admin reference seeded ≡ false)
    × (has_admin reference (bootstrap "root" seeded).1 ≡ true)
    × ((bootstrap_admin reference plain whole "eve" "another password"
          (bootstrap "root" seeded).1).0
        ≢ ok tt)
unfolding bootstraps
bootstrap_admin_first_example =
    bootstrap_admin_first reference plain whole whole "root" "eve" "a long password"
      "another password" seeded refl
