-- ===== src/Handler/Account.antt =====
-- internal/handler/user_handler.go: the handlers of accounts. The user's id is what AuthMiddleware
-- has set in the context; a body is what `ShouldBindJSON` reads, if it reads it.
use go_user_system.Common.{String, Option, none, some}
use go_user_system.Common.Int.{ℤ}
use go_user_system.Common.Time.{Time}
use go_user_system.Errors.{app, Code}
use go_user_system.Model.{User}
use go_user_system.Result.{Result, ok, err}
use go_user_system.Database.{Database}
use go_user_system.Service.User.{
  Bcrypt, UserService, register, get_profile, update_nickname, update_user_password,
}
use go_user_system.Middleware.{Reply, handle_error}
use go_user_system.Handler.{reply}
use go_user_system.Handler.Login.{LoginRequest}

-- A value of the context of a request: an int64, or one of another type.
pub data ContextValue : Type 0 where
  int64 : ℤ → ContextValue
  other : ContextValue

-- A failure, or a success with its data.
pub data Answer (A : Type 0) : Type 0 where
  failed : Reply → Answer A
  succeeded : A → Answer A

pub record UserInfo : Type 0 where
  pub id : ℤ
  pub username : String
  pub nickname : String
  pub status : ℤ
  pub last_login_at : Option Time

pub record UpdatePasswordRequest : Type 0 where
  pub old_password : String
  pub new_password : String

abbrev pub user_info : User → UserInfo
user_info u = record {
  id = u.id;
  username = u.username;
  nickname = u.nickname;
  status = u.status;
  last_login_at = u.last_login_at;
}

abbrev pub user_missing : Code → String → Reply
user_missing code message = handle_error (app 500 Code.token_user_missing "没有找到用户信息") code message

abbrev pub user_invalid : Code → String → Reply
user_invalid code message = handle_error (app 500 Code.token_user_invalid "无效的用户信息") code message

abbrev pub bad_body : {A : Type 0} → Answer A
bad_body = failed (reply 400 Code.invalid_params "参数错误")

-- The end of a handler: the error of the service, or its result.
abbrev pub answer_of : {A B : Type 0} → Code → String → (A → B) → Result A → Answer B
answer_of code message f (err e) = failed (handle_error e code message)
answer_of code message f (ok a) = succeeded (f a)

module _ (db : Database) (bcrypt : Bcrypt) (users : UserService) where
  open db use {State}

  unfoldable pub register_handler : Option LoginRequest → State → Answer (Unit {0}) × State
  register_handler none s = (bad_body, s)
  register_handler (some req) s =
      let o = register db bcrypt users req.username req.password s in
      (answer_of Code.register_failed "register failed" (λ u. u) o.0, o.1)

  unfoldable pub me_handler : Option ContextValue → State → Answer UserInfo × State
  me_handler none s = (failed (user_missing Code.get_profile_failed "获取用户信息失败"), s)
  me_handler (some other) s = (failed (user_invalid Code.get_profile_failed "获取用户信息失败"), s)
  me_handler (some (int64 user_id)) s =
      let o = get_profile db bcrypt users user_id s in
      (answer_of Code.get_profile_failed "获取用户信息失败" user_info o.0, o.1)

  abbrev pub with_nickname : ℤ → Option String → State → Answer (Unit {0}) × State
  with_nickname user_id none s = (bad_body, s)
  with_nickname user_id (some nickname) s =
      let o = update_nickname db bcrypt users user_id nickname s in
      (answer_of Code.update_nickname_failed "更改昵称失败" (λ u. u) o.0, o.1)

  unfoldable pub update_profile_handler :
      Option ContextValue → Option String → State → Answer (Unit {0}) × State
  update_profile_handler none body s =
      (failed (user_missing Code.update_nickname_failed "更改昵称失败"), s)
  update_profile_handler (some other) body s =
      (failed (user_invalid Code.update_nickname_failed "更改昵称失败"), s)
  update_profile_handler (some (int64 user_id)) body s = with_nickname user_id body s

  abbrev pub with_passwords :
      Time → ℤ → Option UpdatePasswordRequest → State → Answer (Unit {0}) × State
  with_passwords now user_id none s = (bad_body, s)
  with_passwords now user_id (some req) s =
      let o =
        update_user_password db bcrypt users user_id req.old_password req.new_password now s in
      (answer_of Code.update_user_password_failed "修改密码失败" (λ u. u) o.0, o.1)

  -- That a success also clears the cookie of the refresh token is left out.
  unfoldable pub update_user_password_handler :
      Time → Option ContextValue → Option UpdatePasswordRequest → State → Answer (Unit {0}) × State
  update_user_password_handler now none body s =
      (failed (user_missing Code.token_user_missing "更改昵称失败"), s)
  update_user_password_handler now (some other) body s =
      (failed (user_invalid Code.token_user_invalid "更改昵称失败"), s)
  update_user_password_handler now (some (int64 user_id)) body s = with_passwords now user_id body s
