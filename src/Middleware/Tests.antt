-- ===== src/Middleware/Tests.antt =====
-- Requests against the middleware, on the reference database, the memory store and the reference
-- package jwt, and an instance of the theorem on admission.
use go_user_system.Common.{String, true, none, some, ◌≡◌, refl, [], ◌∷◌}
use go_user_system.Common.Int.{pos, ◌+ℤ◌}
use go_user_system.Common.Dict.{lookup, insert}
use go_user_system.Common.Text.{trim_space, strip_prefix}
use go_user_system.Errors.{Code, error_is, from_error}
use go_user_system.Model.{User}
use go_user_system.Database.{Tables}
use go_user_system.Database.Reference.{reference}
use go_user_system.Dao.{get_user_by_id}
use go_user_system.Repository.Rbac.{user_has_permission}
use go_user_system.AuthState.{new_memory_store, is_access_token_revoked, access_revocation_key}
use go_user_system.AuthState.Interface.{memory_store}
use go_user_system.Token.{TokenManager, parse_token, parse_access_token}
use go_user_system.Token.Reference.{Sealed, sealing}
use go_user_system.Service.Access.{validate_access_token}
use go_user_system.Service.Rbac.{has_permission}
use go_user_system.Middleware.{
  Step, passed, Identity, stop, auth_middleware, require_permission, guarded,
}
use go_user_system.Middleware.Admission.{IsKnown, Holds, guarded-IsAdmitted}

requests : Unit {0}
unfolding get_user_by_id user_has_permission is_access_token_revoked access_revocation_key
    new_memory_store parse_token parse_access_token validate_access_token has_permission
    auth_middleware require_permission guarded error_is from_error trim_space strip_prefix lookup
    insert ◌+ℤ◌
requests = tt

abbrev keeper : TokenManager
keeper = record {
  secret = "0123456789abcdef0123456789abcdef";
  issuer = "go-user-system";
  access_ttl = pos 900;
  refresh_ttl = pos 9000;
}

abbrev signed : String → Sealed
signed text = (
  record {
    username = "eve";
    user_id = pos 3;
    token_type = "access";
    auth_version = pos 1;
    jti = "";
    issuer = "go-user-system";
    issued_at = some (pos 5);
    expires_at = some (pos 905);
    id = text;
  },
  keeper.secret,
)

abbrev eve : User
eve = record {
  id = pos 3;
  username = "eve";
  password_hash = "h";
  nickname = "eve";
  status = pos 1;
  auth_version = pos 1;
  last_login_at = none;
  deleted_at = none;
}

abbrev world : Tables
world = record {
  users = eve ∷ [];
  tokens = [];
  roles = record { id = pos 1; code = "user"; name = "user" } ∷ [];
  permissions =
      record { id = pos 9; code = "profile:read"; name = "read"; method = "GET"; path = "/me" }
      ∷ [];
  user_roles = record { user_id = pos 3; role_id = pos 1 } ∷ [];
  role_permissions = record { role_id = pos 1; permission_id = pos 9 } ∷ [];
  next_user_id = pos 4;
  next_token_id = pos 1;
}

abbrev reach : String → String → Step Identity
reach permission header =
    (guarded reference (memory_store (λ s. s)) sealing keeper signed true permission (pos 6) (pos 6)
      header (world, new_memory_store)).0

abbrev eve_identity : Identity
eve_identity = record { user_id = pos 3; username = "eve"; access_token = "t1"; access_jti = "t1" }

request_tests :
    (reach "profile:read" "Bearer t1" ≡ passed eve_identity)
    × (reach "admin:roles:read" "Bearer t1" ≡ stop 403 Code.permission_denied "无权限访问")
    × (reach "profile:read" "Basic t1"
        ≡ stop 401 Code.token_invalid_format "invalid authorization Bearer")
unfolding requests
request_tests = (refl, refl, refl)

guarded-IsAdmitted_example :
    IsKnown reference
      (memory_store (λ s. s))
      sealing
      keeper
      signed
      true
      (pos 6)
      (pos 6)
      "Bearer t1"
      world
      new_memory_store
      eve_identity
    × Holds reference
        (memory_store (λ s. s))
        sealing
        keeper
        signed
        true
        (pos 6)
        (pos 6)
        "Bearer t1"
        "profile:read"
        (pos 3)
        world
unfolding requests
guarded-IsAdmitted_example =
    guarded-IsAdmitted reference (memory_store (λ s. s)) sealing keeper signed true (pos 6) (pos 6)
      "Bearer t1" "profile:read" world new_memory_store eve_identity refl
