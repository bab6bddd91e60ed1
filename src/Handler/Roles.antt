-- ===== src/Handler/Roles.antt =====
-- internal/handler/rbac_handler.go: the handlers of roles and permissions.
use go_user_system.Common.{String, Bool, List, map, Option, none, some, if◌then◌else◌}
use go_user_system.Common.Int.{ℤ, pos, leb_ℤ}
use go_user_system.Errors.{Code}
use go_user_system.Model.{Role, Permission}
use go_user_system.Database.{Database}
use go_user_system.Config.{atoi}
use go_user_system.Service.Rbac.{
  list_roles, list_permissions, get_user_authorization, assign_roles_to_user,
}
use go_user_system.Handler.{reply}
use go_user_system.Handler.Account.{ContextValue, int64, other, Answer, failed, answer_of, bad_body}

pub record RoleResponse : Type 0 where
  pub id : ℤ
  pub code : String
  pub name : String

pub record PermissionResponse : Type 0 where
  pub id : ℤ
  pub code : String
  pub name : String
  pub method : String
  pub path : String

abbrev pub role_response : Role → RoleResponse
role_response r = record { id = r.id; code = r.code; name = r.name }

abbrev pub permission_response : Permission → PermissionResponse
permission_response p = record {
  id = p.id;
  code = p.code;
  name = p.name;
  method = p.method;
  path = p.path;
}

module _ (db : Database) (initialized : Bool) where
  open db use {State}

  unfoldable pub list_roles_handler : State → Answer (List RoleResponse) × State
  list_roles_handler s =
      let o = list_roles db initialized s in
      (answer_of Code.rbac_failed "读取角色列表失败" (map role_response) o.0, o.1)

  unfoldable pub list_permissions_handler : State → Answer (List PermissionResponse) × State
  list_permissions_handler s =
      let o = list_permissions db initialized s in
      (answer_of Code.rbac_failed "读取权限列表失败" (map permission_response) o.0, o.1)

  unfoldable pub get_my_authorization_handler :
      (List String → List String)
      → Option ContextValue
      → State
      → Answer (List String × List String) × State
  get_my_authorization_handler distinct none s =
      (failed (reply 401 Code.token_user_missing "用户未认证"), s)
  get_my_authorization_handler distinct (some other) s =
      (failed (reply 401 Code.token_user_invalid "无效的用户信息"), s)
  get_my_authorization_handler distinct (some (int64 user_id)) s =
      let o = get_user_authorization db initialized distinct user_id s in
      if leb_ℤ user_id (pos 0)
      then (failed (reply 401 Code.token_user_invalid "无效的用户信息"), s)
      else (answer_of Code.rbac_failed "读取用户授权信息失败" (λ codes. codes) o.0, o.1)

  abbrev pub with_codes : ℤ → Option (List String) → State → Answer (Unit {0}) × State
  with_codes user_id none s = (bad_body, s)
  with_codes user_id (some role_codes) s =
      let o = assign_roles_to_user db initialized user_id role_codes s in
      (answer_of Code.rbac_failed "分配用户角色失败" (λ u. u) o.0, o.1)

  abbrev pub for_user : Option ℤ → Option (List String) → State → Answer (Unit {0}) × State
  for_user none body s = (failed (reply 400 Code.invalid_params "无效的用户ID"), s)
  for_user (some user_id) body s =
      if leb_ℤ user_id (pos 0)
      then (failed (reply 400 Code.invalid_params "无效的用户ID"), s)
      else with_codes user_id body s

  -- `id` is the parameter of the path.
  unfoldable pub assign_user_roles_handler :
      String → Option (List String) → State → Answer (Unit {0}) × State
  assign_user_roles_handler id body s = for_user (atoi id) body s
