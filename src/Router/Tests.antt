-- ===== src/Router/Tests.antt =====
-- Requests to routes on the reference database, the memory store and the reference package jwt, and
-- instances of the theorems.
use go_user_system.Common.{String, true, none, some, ◌≡◌, refl, [], ◌∷◌, str_eq}
use go_user_system.Common.Int.{pos, ◌+ℤ◌}
use go_user_system.Common.Dict.{lookup, insert}
use go_user_system.Common.Text.{trim_space, strip_prefix}
use go_user_system.Errors.{Code, error_is, from_error}
use go_user_system.Model.{User, permission_admin_user_role_edit}
use go_user_system.Result.{ok}
use go_user_system.Database.{Tables}
use go_user_system.Database.Reference.{reference}
use go_user_system.Dao.{get_user_by_id}
use go_user_system.Repository.Rbac.{
  user_has_permission, find_role_by_code, find_roles_by_codes, create_user_roles,
  replace_user_roles_by_codes,
}
use go_user_system.AuthState.{new_memory_store, is_access_token_revoked, access_revocation_key}
use go_user_system.AuthState.Interface.{memory_store}
use go_user_system.Config.{atoi}
use go_user_system.Token.{TokenManager, parse_token, parse_access_token}
use go_user_system.Token.Reference.{Sealed, sealing}
use go_user_system.Service.Access.{validate_access_token}
use go_user_system.Service.Rbac.{has_permission, normalize, assign_roles_to_user}
use go_user_system.Middleware.{auth_middleware, require_permission, guarded, handle_error}
use go_user_system.Handler.{UserHandler, reply}
use go_user_system.Handler.Account.{failed, succeeded}
use go_user_system.Handler.Roles.{assign_user_roles_handler}
use go_user_system.Router.{behind, put_user_roles, put_roles_of, serve_write}
use go_user_system.Router.Unchanged.{serve_write_keeps}

routes : Unit {0}
unfolding get_user_by_id user_has_permission find_role_by_code find_roles_by_codes create_user_roles
    replace_user_roles_by_codes is_access_token_revoked access_revocation_key new_memory_store
    parse_token parse_access_token validate_access_token has_permission normalize
    assign_roles_to_user auth_middleware require_permission guarded handle_error error_is from_error
    trim_space strip_prefix lookup insert ◌+ℤ◌ atoi assign_user_roles_handler behind serve_write
routes = tt

abbrev issuer : TokenManager
issuer = record {
  secret = "0123456789abcdef0123456789abcdef";
  issuer = "go-user-system";
  access_ttl = pos 900;
  refresh_ttl = pos 9000;
}

abbrev signed : String → Sealed
signed text = (
  record {
    username = "eve";
    user_id = pos 3;
    token_type = "access";
    auth_version = pos 1;
    jti = "";
    issuer = "go-user-system";
    issued_at = some (pos 5);
    expires_at = some (pos 905);
    id = text;
  },
  issuer.secret,
)

abbrev same : String → String
same s = s

abbrev desk : UserHandler
desk = record {
  db = reference;
  store = memory_store same;
  jwt = sealing;
  manager = issuer;
  bcrypt = record { generate = ok; matches = str_eq };
  users = record { initialized = true; has_refresh_repo = true; has_rbac_repo = true };
  text_of = signed;
  hash_token = λ text. "h";
  lower = same;
  limit = record { account_limit = pos 2; ip_limit = pos 9; window = pos 5000000000 };
  initialized = true;
}

abbrev eve : User
eve = record {
  id = pos 3;
  username = "eve";
  password_hash = "h";
  nickname = "eve";
  status = pos 1;
  auth_version = pos 1;
  last_login_at = none;
  deleted_at = none;
}

abbrev world : Tables
world = record {
  users = eve ∷ [];
  tokens = [];
  roles = record { id = pos 7; code = "admin"; name = "admin" } ∷ [];
  permissions =
      record {
        id = pos 1;
        code = permission_admin_user_role_edit;
        name = "roles";
        method = "PUT";
        path = "/";
      }
      ∷ [];
  user_roles = record { user_id = pos 3; role_id = pos 7 } ∷ [];
  role_permissions = record { role_id = pos 7; permission_id = pos 1 } ∷ [];
  next_user_id = pos 4;
  next_token_id = pos 1;
}

route_tests :
    ((put_user_roles desk
        (pos 6)
        (pos 6)
        "Bearer t"
        "3"
        (some ("admin" ∷ []))
        (world, new_memory_store)).0
      ≡ succeeded tt)
    × ((put_user_roles desk
          (pos 6)
          (pos 6)
          ""
          "3"
          (some ("admin" ∷ []))
          (world, new_memory_store)).0
        ≡ failed (reply 401 Code.token_missing "authorization header is empty"))
    × ((put_user_roles desk
          (pos 6)
          (pos 6)
          "Bearer t"
          "x"
          (some ("admin" ∷ []))
          (world, new_memory_store)).0
        ≡ failed (reply 400 Code.invalid_params "无效的用户ID"))
unfolding routes
route_tests = (refl, refl, refl)

serve_write_keeps_example :
    (serve_write desk
      (pos 6)
      (pos 6)
      "Bearer t"
      (put_roles_of "3" (some ("boss" ∷ [])))
      (world, new_memory_store)).1.0
    ≡ world
unfolding routes
serve_write_keeps_example =
    serve_write_keeps desk (pos 6) (pos 6) "Bearer t" (put_roles_of "3" (some ("boss" ∷ [])))
      (world, new_memory_store) (reply 404 Code.role_not_found "role not found") refl
