-- ===== src/Router/Unchanged.antt =====
-- Requests that fail, and what they leave of the tables.
use go_user_system.Common.{
  String, Bool, Option, none, some, List, ◌||◌, ◌≡◌, refl, ◌∙◌, Bool-cases, Option-cases, inl, inr,
}
use go_user_system.Common.Int.{ℤ, pos, leb_ℤ}
use go_user_system.Common.Text.{is_blank}
use go_user_system.Common.Time.{Time}
use go_user_system.Errors.{Error, Code}
use go_user_system.Result.{Result}
use go_user_system.Database.{Database, Tables}
use go_user_system.Config.{atoi}
use go_user_system.Service.Promise.{Verdict, Keeps, refusal, success, fault, IsFault}
use go_user_system.Service.Rbac.{has_permission}
use go_user_system.Service.Rbac.Permissions.{has_permission-Implements}
use go_user_system.Service.Rbac.Roles.{assign_roles_to_user-Implements}
use go_user_system.Service.User.Register.{register-Implements}
use go_user_system.Service.User.Profile.{update_nickname-Implements}
use go_user_system.Service.User.Password.{update_user_password-Implements}
use go_user_system.Middleware.{
  Reply, Step, stopped, passed, Identity, require_permission, guarded, then_permission,
}
use go_user_system.Middleware.Admission.{auth_middleware-view}
use go_user_system.Handler.{UserHandler}
use go_user_system.Handler.Login.{LoginRequest}
use go_user_system.Handler.Account.{
  ContextValue, int64, other, failed, UpdatePasswordRequest, answer_of, register_handler,
  update_profile_handler, update_user_password_handler,
}
use go_user_system.Handler.Roles.{assign_user_roles_handler, with_codes}
use go_user_system.Router.{
  Both, Handling, then_handler, behind, WriteRequest, post_register, put_nickname,
  patch_own_password, put_roles_of, serve_write,
}

-- An answer that failed rests on an error of the service.
kept_on_failure :
    {S A B : Type 0} (view : S → Tables) (Fault : Error → Type 0) (v : Verdict A) (t : Tables)
    (o : Result A × S) (code : Code) (message : String) (f : A → B) (r : Reply)
    → Keeps view Fault v t o
    → answer_of code message f o.0 ≡ failed r
    → view o.1 ≡ t
kept_on_failure view Fault v t o code message f r (refusal e w p q) h = q
kept_on_failure view Fault v t o code message f r (success a u w p q) h =
    absurd (let k = rw p at h in cc)
kept_on_failure view Fault v t o code message f r (fault e p i q) h = q

module _ (db : Database) (initialized : Bool) where
  open db use {view}

  has_permission-view :
      (user_id : ℤ) (permission_code : String) (s : db.State)
      → view (has_permission db initialized user_id permission_code s).1 ≡ view s
  has_permission-view user_id permission_code s =
      elim (has_permission-Implements db initialized user_id permission_code s) [
        | refusal e v p q ↦ q
        | success a u v p q ↦
            q ∙ elim (Bool-cases (leb_ℤ user_id (pos 0) || is_blank permission_code)) [
              | inl bad ↦ absurd (let k = rw bad at v in cc)
              | inr good ↦ elim (Bool-cases initialized) [
                | inr missing ↦ absurd (let k = rw (good, missing) at v in cc)
                | inl ready ↦ let k = rw (good, ready) at v in cc
              ]
            ]
        | fault e p i q ↦ q
      ]

  require_permission-view :
      (permission_code : String) (user_id : ℤ) (s : db.State)
      → view (require_permission db initialized permission_code (some user_id) s).1 ≡ view s
  unfolding require_permission
  require_permission-view permission_code user_id s = elim (Bool-cases (is_blank permission_code)) [
    | inl blank ↦ rw blank refl
    | inr full ↦ elim (Bool-cases (leb_ℤ user_id (pos 0))) [
      | inl bad ↦ rw (full, bad) refl
      | inr good ↦ rw (full, good) (has_permission-view user_id permission_code s)
    ]
  ]

module _ (h : UserHandler) (now at : Time) (header : String) where
  open h use {db, store}

  then_permission-view :
      (permission_code : String) (step : Step Identity) (s : db.State) (k : store.State)
      → db.view
          (then_permission db store h.jwt h.manager h.text_of h.initialized permission_code step
            (s, k)).1.0
        ≡ db.view s
  then_permission-view permission_code (stopped r) s k = refl
  then_permission-view permission_code (passed id) s k =
      require_permission-view db h.initialized permission_code id.user_id s

  pub guarded-view :
      (permission_code : String) (s : Both h now at header)
      → db.view
          (guarded db store h.jwt h.manager h.text_of h.initialized permission_code now at header
            s).1.0
        ≡ db.view s.0
  unfolding guarded
  guarded-view permission_code (s, k) =
      then_permission-view permission_code _ _ _
      ∙ auth_middleware-view db store h.jwt h.manager h.text_of h.initialized now at header s k

  -- A handler that leaves the tables as they are when it fails.
  abbrev FailsSafe : {A : Type 0} → Handling h now at header A → Type 0
  FailsSafe handler =
      (id : Option ContextValue) (s : db.State) (r : Reply)
      → (handler id s).0 ≡ failed r
      → db.view (handler id s).1 ≡ db.view s

  then_handler-view :
      {A : Type 0} (handler : Handling h now at header A) (step : Step Identity)
      (s : Both h now at header) (r : Reply)
      → FailsSafe handler
      → (then_handler h now at header handler step s).0 ≡ failed r
      → db.view (then_handler h now at header handler step s).1.0 ≡ db.view s.0
  then_handler-view handler (stopped q) s r safe e = refl
  then_handler-view handler (passed id) (s, k) r safe e = safe _ s r e

  behind-view :
      {A : Type 0} (permission_code : String) (handler : Handling h now at header A)
      (s : Both h now at header) (r : Reply)
      → FailsSafe handler
      → (behind h now at header permission_code handler s).0 ≡ failed r
      → db.view (behind h now at header permission_code handler s).1.0 ≡ db.view s.0
  unfolding behind
  behind-view permission_code handler s r safe e =
      then_handler-view handler _ _ r safe e ∙ guarded-view permission_code s

  register_safe :
      (req : Option LoginRequest) (s : db.State) (r : Reply)
      → (register_handler db h.bcrypt h.users req s).0 ≡ failed r
      → db.view (register_handler db h.bcrypt h.users req s).1 ≡ db.view s
  unfolding register_handler
  register_safe none s r e = refl
  register_safe (some req) s r e =
      kept_on_failure db.view IsFault _ _ _ _ _ _ r
        (register-Implements db h.bcrypt h.users req.username req.password s) e

  profile_safe :
      (body : Option String) → FailsSafe (λ id. update_profile_handler db h.bcrypt h.users id body)
  unfolding update_profile_handler
  profile_safe body none s r e = refl
  profile_safe body (some other) s r e = refl
  profile_safe none (some (int64 user_id)) s r e = refl
  profile_safe (some nickname) (some (int64 user_id)) s r e =
      kept_on_failure db.view IsFault _ _ _ _ _ _ r
        (update_nickname-Implements db h.bcrypt h.users user_id nickname s) e

  password_safe :
      (written : Time) (body : Option UpdatePasswordRequest)
      → FailsSafe (λ id. update_user_password_handler db h.bcrypt h.users written id body)
  unfolding update_user_password_handler
  password_safe written body none s r e = refl
  password_safe written body (some other) s r e = refl
  password_safe written none (some (int64 user_id)) s r e = refl
  password_safe written (some req) (some (int64 user_id)) s r e =
      kept_on_failure db.view _ _ _ _ _ _ _ r
        (update_user_password-Implements db h.bcrypt user_id req.old_password req.new_password
          written h.users s)
        e

  roles_safe :
      (user : String) (body : Option (List String))
      → FailsSafe (λ id. assign_user_roles_handler db h.initialized user body)
  unfolding assign_user_roles_handler
  roles_safe user body id s r e = elim (Option-cases (atoi user)) [
    | inl missing ↦ rw missing refl
    | inr (user_id, found) ↦ elim (Bool-cases (leb_ℤ user_id (pos 0))) [
      | inl bad ↦ rw (found, bad) refl
      | inr good ↦ rw (found, good) (codes_safe user_id body s r (rw (found, good) at e))
    ]
  ]
    where
      codes_safe :
          (user_id : ℤ) (body : Option (List String)) (s : db.State) (r : Reply)
          → (with_codes db h.initialized user_id body s).0 ≡ failed r
          → db.view (with_codes db h.initialized user_id body s).1 ≡ db.view s
      codes_safe user_id none s r e = refl
      codes_safe user_id (some codes) s r e =
          kept_on_failure db.view IsFault _ _ _ _ _ _ r
            (assign_roles_to_user-Implements db h.initialized user_id codes s) e

  -- A request to register, or to change a nickname, a password or the roles of a user, that is
  -- answered with a failure, by a middleware or by its handler, leaves the tables as they are.
  pub serve_write_keeps :
      (q : WriteRequest h now at header) (s : Both h now at header) (r : Reply)
      → (serve_write h now at header q s).0 ≡ failed r
      → db.view (serve_write h now at header q s).1.0 ≡ db.view s.0
  unfolding serve_write
  serve_write_keeps (post_register req) (s, k) r e = register_safe req s r e
  serve_write_keeps (put_nickname body) s r e = behind-view _ _ s r (profile_safe body) e
  serve_write_keeps (patch_own_password written body) s r e =
      behind-view _ _ s r (password_safe written body) e
  serve_write_keeps (put_roles_of user body) s r e = behind-view _ _ s r (roles_safe user body) e
