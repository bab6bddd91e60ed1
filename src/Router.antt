-- ===== src/Router.antt =====
-- router/router.go: the routes behind AuthMiddleware and RequirePermission, with their handlers. A
-- handler is given the id that the middleware has set in the context.
pub mod Unchanged
pub mod Admitted
mod Tests
use go_user_system.Common.{String, List, Option, some}
use go_user_system.Common.Time.{Time}
use go_user_system.Model.{
  permission_profile_read, permission_profile_update, permission_password_update,
  permission_admin_roles_read, permission_admin_perms_read, permission_admin_user_role_edit,
}
use go_user_system.Middleware.{Step, stopped, passed, Identity, auth_middleware, guarded}
use go_user_system.Handler.{UserHandler}
use go_user_system.Handler.Login.{LoginRequest}
use go_user_system.Handler.Account.{
  ContextValue, int64, Answer, failed, UserInfo, UpdatePasswordRequest, me_handler,
  update_profile_handler, update_user_password_handler, register_handler,
}
use go_user_system.Handler.Roles.{
  RoleResponse, PermissionResponse, list_roles_handler, list_permissions_handler,
  get_my_authorization_handler, assign_user_roles_handler,
}

module _ (h : UserHandler) (now at : Time) (header : String) where
  open h use {db, store}

  abbrev pub Both : Type 0
  Both = db.State × store.State

  -- The handler of a route, given the id of the user.
  abbrev pub Handling : Type 0 → Type 0
  Handling A = Option ContextValue → db.State → Answer A × db.State

  abbrev pub then_handler : {A : Type 0} → Handling A → Step Identity → Both → Answer A × Both
  then_handler handler (stopped r) s = (failed r, s)
  then_handler handler (passed id) (s, k) =
      let o = handler (some (int64 id.user_id)) s in (o.0, (o.1, k))

  unfoldable pub behind : {A : Type 0} → String → Handling A → Both → Answer A × Both
  behind permission_code handler s =
      let o =
        guarded db store h.jwt h.manager h.text_of h.initialized permission_code now at header s in
      then_handler handler o.0 o.1

  abbrev pub get_me : Both → Answer UserInfo × Both
  get_me = behind permission_profile_read (me_handler db h.bcrypt h.users)

  -- This route has no permission of its own.
  abbrev pub get_my_authorization :
      (List String → List String) → Both → Answer (List String × List String) × Both
  get_my_authorization distinct s =
      let o = auth_middleware db store h.jwt h.manager h.text_of h.initialized now at header s in
      then_handler (get_my_authorization_handler db h.initialized distinct) o.0 o.1

  abbrev pub put_profile : Option String → Both → Answer (Unit {0}) × Both
  put_profile body =
      behind permission_profile_update (λ id. update_profile_handler db h.bcrypt h.users id body)

  abbrev pub patch_password : Time → Option UpdatePasswordRequest → Both → Answer (Unit {0}) × Both
  patch_password written body =
      behind permission_password_update
        (λ id. update_user_password_handler db h.bcrypt h.users written id body)

  abbrev pub get_roles : Both → Answer (List RoleResponse) × Both
  get_roles = behind permission_admin_roles_read (λ id. list_roles_handler db h.initialized)

  abbrev pub get_permissions : Both → Answer (List PermissionResponse) × Both
  get_permissions =
      behind permission_admin_perms_read (λ id. list_permissions_handler db h.initialized)

  abbrev pub put_user_roles : String → Option (List String) → Both → Answer (Unit {0}) × Both
  put_user_roles user body =
      behind permission_admin_user_role_edit
        (λ id. assign_user_roles_handler db h.initialized user body)

  -- The requests that write accounts and roles.
  pub data WriteRequest : Type 0 where
    post_register : Option LoginRequest → WriteRequest
    put_nickname : Option String → WriteRequest
    patch_own_password : Time → Option UpdatePasswordRequest → WriteRequest
    put_roles_of : String → Option (List String) → WriteRequest

  unfoldable pub serve_write : WriteRequest → Both → Answer (Unit {0}) × Both
  serve_write (post_register req) (s, k) =
      let o = register_handler db h.bcrypt h.users req s in (o.0, (o.1, k))
  serve_write (put_nickname body) s = put_profile body s
  serve_write (patch_own_password written body) s = patch_password written body s
  serve_write (put_roles_of user body) s = put_user_roles user body s
