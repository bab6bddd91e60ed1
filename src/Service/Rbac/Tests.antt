-- ===== src/Service/Rbac/Tests.antt =====
-- Runs of the role service on the reference database, and instances of its theorems.
use go_user_system.Common.{String, true, ◌≡◌, refl, List, [], ◌∷◌, any, str_eq}
use go_user_system.Common.Int.{ℤ, pos}
use go_user_system.Common.Text.{trim_space}
use go_user_system.Errors.{sentinel, error_is, Sentinel}
use go_user_system.Model.{Role}
use go_user_system.Result.{err}
use go_user_system.Database.{Tables}
use go_user_system.Database.Reference.{reference}
use go_user_system.Repository.Rbac.{
  find_role_by_code, find_roles_by_codes, create_user_roles, replace_user_roles_by_codes,
}
use go_user_system.Service.Promise.{Keeps, IsFault}
use go_user_system.Service.Rbac.{normalize, has_permission, assign_roles_to_user}
use go_user_system.Service.Rbac.Codes.{has_no_repeats, normalize_lem}
use go_user_system.Service.Rbac.Permissions.{permission_verdict, has_permission-Implements}
use go_user_system.Service.Rbac.Roles.{assign_verdict, assign_roles_to_user-Implements}

rbac : Unit {0}
unfolding find_role_by_code find_roles_by_codes create_user_roles replace_user_roles_by_codes
    normalize assign_roles_to_user error_is trim_space
rbac = tt

abbrev role : ℤ → String → Role
role id code = record { id = id; code = code; name = code }

abbrev roles : Tables
roles = record {
  users = [];
  tokens = [];
  roles = role (pos 1) "user" ∷ role (pos 2) "admin" ∷ [];
  permissions = [];
  user_roles =
      record { user_id = pos 7; role_id = pos 1 }
      ∷ record { user_id = pos 8; role_id = pos 1 }
      ∷ [];
  role_permissions = [];
  next_user_id = pos 9;
  next_token_id = pos 1;
}

abbrev codes : List String
codes = "admin" ∷ " admin " ∷ []

role_tests :
    ((assign_roles_to_user reference true (pos 7) codes roles).1.user_roles
      ≡ record { user_id = pos 8; role_id = pos 1 }
        ∷ record { user_id = pos 7; role_id = pos 2 }
        ∷ [])
    × (assign_roles_to_user reference true (pos 7) ("admin" ∷ "none" ∷ []) roles
        ≡ (err (sentinel Sentinel.role_not_found), roles))
unfolding rbac
role_tests = (refl, refl)

assign_roles_to_user-Implements_example :
    Keeps
      (λ t. t)
      IsFault
      (assign_verdict reference true (pos 7) codes roles)
      roles
      (assign_roles_to_user reference true (pos 7) codes roles)
assign_roles_to_user-Implements_example =
    assign_roles_to_user-Implements reference true (pos 7) codes roles

normalize_lem_example :
    (has_no_repeats ("admin" ∷ []) ≡ true)
    × (any (str_eq "admin") ("admin" ∷ []) ≡ any (λ given. str_eq "admin" (trim_space given)) codes)
unfolding rbac
normalize_lem_example = normalize_lem codes ("admin" ∷ []) "admin" refl

has_permission-Implements_example :
    Keeps
      (λ t. t)
      IsFault
      (permission_verdict reference true (pos 8) "user.read" roles)
      roles
      (has_permission reference true (pos 8) "user.read" roles)
has_permission-Implements_example =
    has_permission-Implements reference true (pos 8) "user.read" roles
