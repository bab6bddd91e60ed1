-- ===== src/Service/User/Tests.antt =====
-- Runs of the account service on the reference database, and instances of its theorems. The hash
-- of a password is the password behind a mark.
use Prim.Native.String.{◌++◌}
use go_user_system.Common.{true, ◌≡◌, refl, [], ◌∷◌, str_eq}
use go_user_system.Common.Int.{pos, ◌+ℤ◌}
use go_user_system.Common.Text.{trim_space}
use go_user_system.Errors.{sentinel, error_is, Sentinel, invalid_credentials}
use go_user_system.Model.{Role, role_code_user, with_defaults}
use go_user_system.Result.{Result, ok, err}
use go_user_system.Database.{Tables}
use go_user_system.Database.Reference.{reference}
use go_user_system.Dao.{
  create_user, get_user_by_username, get_user_by_id, get_user_by_id_for_update,
  update_nickname_by_id, update_last_login_at_by_id, update_user_password_by_user_id,
}
use go_user_system.Repository.{revoke_all_by_user_id}
use go_user_system.Repository.Rbac.{find_role_by_code, assign_role_to_user_by_code}
use go_user_system.Service.Promise.{Keeps, IsFault}
use go_user_system.Service.User.{
  Bcrypt, UserService, create_with_role, register, login, get_profile, update_nickname,
  revoke_sessions, password_body, update_user_password,
}
use go_user_system.Service.User.Login.{login_verdict, login-Implements}
use go_user_system.Service.User.Register.{register_verdict, register-Implements}
use go_user_system.Service.User.Password.{
  IsPasswordFault, password_verdict, update_user_password-Implements,
}

users : Unit {0}
unfolding create_with_role register login get_profile update_nickname revoke_sessions password_body
    update_user_password create_user get_user_by_username get_user_by_id get_user_by_id_for_update
    update_nickname_by_id update_last_login_at_by_id update_user_password_by_user_id
    revoke_all_by_user_id find_role_by_code assign_role_to_user_by_code error_is ◌+ℤ◌ trim_space
    with_defaults
users = tt

abbrev plain : Bcrypt
plain = record {
  generate = λ password. ok ("#" ++ password);
  matches = λ hash password. str_eq hash ("#" ++ password);
}

abbrev whole : UserService
whole = record { initialized = true; has_refresh_repo = true; has_rbac_repo = true }

abbrev member : Role
member = record { id = pos 3; code = role_code_user; name = "member" }

abbrev bare : Tables
bare = record {
  users = [];
  tokens = [];
  roles = member ∷ [];
  permissions = [];
  user_roles = [];
  role_permissions = [];
  next_user_id = pos 1;
  next_token_id = pos 1;
}

abbrev registered : Result (Unit {0}) × Tables
registered = register reference plain whole " bob " "a long password" bare

abbrev changing : Result (Unit {0}) × Tables
changing =
    update_user_password reference plain whole (pos 1) "a long password" "a new long password"
      (pos 50) registered.1

user_tests :
    (registered.0 ≡ ok tt)
    × ((register reference plain whole "bob" "a long password" registered.1).0
        ≡ err (sentinel Sentinel.username_already_exists))
    × ((login reference plain whole "bob" "wrong" (pos 9) registered.1).0
        ≡ err (sentinel invalid_credentials))
    × ((login reference plain whole "eve" "wrong" (pos 9) registered.1).0
        ≡ err (sentinel invalid_credentials))
    × (changing.0 ≡ ok tt)
    × ((update_nickname reference plain whole (pos 1) " bobby " registered.1).0 ≡ ok tt)
unfolding users
user_tests = (refl, refl, refl, refl, refl, refl)

register-Implements_example :
    Keeps
      (λ t. t)
      IsFault
      (register_verdict reference plain whole " bob " "a long password" bare)
      bare
      registered
register-Implements_example =
    register-Implements reference plain whole " bob " "a long password" bare

login-Implements_example :
    Keeps
      (λ t. t)
      IsFault
      (login_verdict reference plain "bob" "a long password" (pos 9) true registered.1)
      registered.1
      (login reference plain whole "bob" "a long password" (pos 9) registered.1)
login-Implements_example =
    login-Implements reference plain "bob" "a long password" (pos 9) whole registered.1

update_user_password-Implements_example :
    Keeps
      (λ t. t)
      IsPasswordFault
      (password_verdict reference plain
        (pos 1)
        "a long password"
        "a new long password"
        (pos 50)
        whole
        registered.1)
      registered.1
      changing
update_user_password-Implements_example =
    update_user_password-Implements reference plain (pos 1) "a long password" "a new long password"
      (pos 50) whole registered.1
