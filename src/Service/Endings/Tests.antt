-- ===== src/Service/Endings/Tests.antt =====
-- Instances of the theorems on changes of the password, on the reference database.
use Prim.Native.String.{◌++◌}
use go_user_system.Common.{true, none, some, ◌≢◌, refl, [], ◌∷◌, str_eq}
use go_user_system.Common.Int.{pos, ◌+ℤ◌}
use go_user_system.Errors.{error_is}
use go_user_system.Model.{User, RefreshToken}
use go_user_system.Result.{Result, ok}
use go_user_system.Database.{Tables}
use go_user_system.Database.Reference.{reference}
use go_user_system.Dao.{get_user_by_id_for_update, update_user_password_by_user_id}
use go_user_system.Repository.{revoke_all_by_user_id}
use go_user_system.AuthState.{new_memory_store}
use go_user_system.AuthState.Interface.{memory_store}
use go_user_system.Service.User.{
  Bcrypt, UserService, revoke_sessions, password_body, update_user_password,
}
use go_user_system.Token.{UserClaims}
use go_user_system.Service.Access.{validate_access_token}
use go_user_system.Service.Endings.{
  AllEnded, password_change_revokes_tokens, password_change_rejects_access,
}

password : Unit {0}
unfolding revoke_sessions password_body update_user_password get_user_by_id_for_update
    update_user_password_by_user_id revoke_all_by_user_id error_is ◌+ℤ◌
password = tt

abbrev marking : Bcrypt
marking = record {
  generate = λ given. ok ("#" ++ given);
  matches = λ hash given. str_eq hash ("#" ++ given);
}

abbrev complete : UserService
complete = record { initialized = true; has_refresh_repo = true; has_rbac_repo = true }

abbrev dee : User
dee = record {
  id = pos 2;
  username = "dee";
  password_hash = "#a long password";
  nickname = "dee";
  status = pos 1;
  auth_version = pos 1;
  last_login_at = none;
  deleted_at = none;
}

abbrev held : RefreshToken
held = record {
  id = pos 1;
  user_id = pos 2;
  jti = "r1";
  family_id = "r1";
  token_hash = "t1";
  expires_at = pos 900;
  revoked_at = none;
  revoked_reason = none;
  replaced_by_jti = none;
}

abbrev before : Tables
before = record {
  users = dee ∷ [];
  tokens = held ∷ [];
  roles = [];
  permissions = [];
  user_roles = [];
  role_permissions = [];
  next_user_id = pos 3;
  next_token_id = pos 2;
}

abbrev after_change : Result (Unit {0}) × Tables
after_change =
    update_user_password reference marking complete (pos 2) "a long password" "another password"
      (pos 7) before

password_change_revokes_tokens_example : AllEnded (pos 2) after_change.1.tokens
unfolding password
password_change_revokes_tokens_example =
    password_change_revokes_tokens reference marking (pos 2) "a long password" "another password"
      (pos 7) true true dee before refl refl

abbrev old_claims : UserClaims
old_claims = record {
  username = "dee";
  user_id = pos 2;
  token_type = "access";
  auth_version = pos 1;
  jti = "a9";
  issuer = "go-user-system";
  issued_at = some (pos 1);
  expires_at = some (pos 90);
  id = "a9";
}

password_change_rejects_access_example :
    (validate_access_token reference
      (memory_store (λ s. s))
      true
      (some old_claims)
      (pos 8)
      (after_change.1, new_memory_store)).0
    ≢ ok tt
unfolding password
password_change_rejects_access_example =
    password_change_rejects_access reference marking (pos 2) "a long password" "another password"
      (pos 7) (memory_store (λ s. s)) true true true dee old_claims (pos 8) before new_memory_store
      refl refl refl refl
