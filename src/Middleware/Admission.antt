-- ===== src/Middleware/Admission.antt =====
-- Which requests reach a handler behind the middleware.
use go_user_system.Common.{
  String, Bool, true, false, Option, none, some, ◌==◌, ◌||◌, first, ◌≡◌, refl, sym, ◌∙◌, Bool-cases,
  inl, inr,
}
use go_user_system.Common.Int.{ℤ, pos, leb_ℤ}
use go_user_system.Common.Text.{is_blank}
use go_user_system.Common.Time.{Time}
use go_user_system.Errors.{Error, AppError, error_is, from_error}
use go_user_system.Model.{User}
use go_user_system.Result.{Result, ok, err, Result-cases}
use go_user_system.Database.{Database, Tables, visible}
use go_user_system.Dao.{has_id}
use go_user_system.AuthState.Interface.{Store}
use go_user_system.Token.{Jwt, TokenManager, UserClaims, parse_access_token}
use go_user_system.Token.Parsing.{IsSound, parse_access_token-IsSound}
use go_user_system.Service.Promise.{refusal, success, fault}
use go_user_system.Service.Auth.Rotation.{is_current}
use go_user_system.Service.Access.{validate_access_token, is_bad_claims}
use go_user_system.Service.Access.Validation.{
  validity, by_row, by_answer, validate_access_token_ends, decided,
}
use go_user_system.Service.Access.Validation
use go_user_system.Service.Rbac.{has_permission}
use go_user_system.Service.Rbac.Permissions.{reaches, is_wanted, has_permission-Implements}
use go_user_system.Middleware.{
  Step, stopped, passed, Identity, identity_of, bearer, is_malformed, is_forged, is_expired,
  parse_failure, app_failure, auth_middleware, require_permission, guarded, then_permission,
  pass_on, with_text, after_validation, after_check,
}

by_answer-ok : (answer : Result Bool) → by_answer answer ≡ ok tt → answer ≡ ok false
by_answer-ok (ok true) h = absurd (cc)
by_answer-ok (ok false) h = refl
by_answer-ok (err e) h = absurd (cc)

-- What is known of claims that are accepted.
pub record IsAccepted (claims : UserClaims) (answer : Result Bool) (row : Option User)
    : Type 0 where
  pub user : User
  pub is_row : row ≡ some user
  pub is_current_row : is_current claims.auth_version user ≡ true
  pub is_free : answer ≡ ok false

by_row-IsAccepted :
    (claims : UserClaims) (answer : Result Bool) (row : Option User)
    → by_row claims answer row ≡ ok tt
    → IsAccepted claims answer row
by_row-IsAccepted claims answer none h = absurd (cc)
by_row-IsAccepted claims answer (some u) h = elim (Bool-cases (is_current claims.auth_version u)) [
  | inl current ↦
      let free = by_answer-ok answer (rw current at h) in
      record { user = u; is_row = refl; is_current_row = current; is_free = free }
  | inr stale ↦ absurd (let k = rw stale at h in cc)
]

validity-IsAccepted :
    (initialized : Bool) (claims : UserClaims) (answer : Result Bool) (t : Tables)
    → validity initialized claims answer t ≡ ok tt
    → IsAccepted claims answer (first (visible (has_id claims.user_id)) t.users)
validity-IsAccepted initialized claims answer t h = elim (Bool-cases initialized) [
  | inr missing ↦ absurd (let k = rw missing at h in cc)
  | inl ready ↦ elim (Bool-cases (is_bad_claims claims)) [
    | inl bad ↦ absurd (let k = rw (ready, bad) at h in cc)
    | inr good ↦ by_row-IsAccepted claims answer _ (rw (ready, good) at h)
  ]
]

app_failure-stops : {A : Type 0} (o : Option AppError) (a : A) → app_failure o ≡ passed a → ⊥
app_failure-stops none a h = cc
app_failure-stops (some e) a h = elim (Bool-cases (e.http_status == 503)) [
  | inl down ↦ (let k = rw down at h in cc)
  | inr other ↦ (let k = rw other at h in cc)
]

parse_failure-stops : {A : Type 0} (e : Error) (a : A) → parse_failure e ≡ passed a → ⊥
parse_failure-stops e a h = elim (Bool-cases (error_is is_malformed e)) [
  | inl b1 ↦ (let k = rw b1 at h in cc)
  | inr b1 ↦ elim (Bool-cases (error_is is_forged e)) [
    | inl b2 ↦ (let k = rw (b1, b2) at h in cc)
    | inr b2 ↦ elim (Bool-cases (error_is is_expired e)) [
      | inl b3 ↦ (let k = rw (b1, b2, b3) at h in cc)
      | inr b3 ↦ (let k = rw (b1, b2, b3) at h in cc)
    ]
  ]
]

module _ (db : Database) (store : Store) (jwt : Jwt) (m : TokenManager)
    (text_of : String → jwt.Text) (initialized : Bool) (now at : Time) (header : String) where
  open db use {view}

  -- The claims behind a request that was let through.
  pub record IsKnown (s : db.State) (k : store.State) (id : Identity) : Type 0 where
    pub text : String
    pub claims : UserClaims
    pub user : User
    pub has_header : bearer header ≡ some text
    pub has_claims : parse_access_token jwt m (text_of text) now ≡ ok claims
    pub is_sound : IsSound claims
    pub has_row : first (visible (has_id claims.user_id)) (view s).users ≡ some user
    pub is_current_row : is_current claims.auth_version user ≡ true
    pub is_unrevoked : (store.is_revoked claims.jti at k).0 ≡ ok false
    pub is_identity : id ≡ identity_of text claims

  validated-IsKnown :
      (text : String) (claims : UserClaims) (s : db.State) (k : store.State) (id : Identity)
      → bearer header ≡ some text
      → parse_access_token jwt m (text_of text) now ≡ ok claims
      → (r : Result (Unit {0}))
      → (validate_access_token db store initialized (some claims) at (s, k)).0 ≡ r
      → after_validation db store jwt m text_of initialized text claims r ≡ passed id
      → IsKnown s k id
  validated-IsKnown text claims s k id carries parsed (err e) validated h =
      absurd (app_failure-stops (from_error e) id h)
  validated-IsKnown text claims s k id carries parsed (ok tt) validated h =
      elim (validate_access_token_ends db store initialized claims at s k) [
        | Validation.fault e p f q ↦ absurd (cc)
        | decided p q ↦
            let facts = validity-IsAccepted initialized claims _ (view s) (sym p ∙ validated) in
            record {
              text = text;
              claims = claims;
              user = facts.user;
              has_header = carries;
              has_claims = parsed;
              is_sound = (parse_access_token-IsSound jwt m (text_of text) now claims parsed).0;
              has_row = facts.is_row;
              is_current_row = facts.is_current_row;
              is_unrevoked = facts.is_free;
              is_identity = cc;
            }
      ]

  with_text-IsKnown :
      (o : Option String) (s : db.State) (k : store.State) (id : Identity)
      → bearer header ≡ o
      → (with_text db store jwt m text_of initialized now at header o (s, k)).0 ≡ passed id
      → IsKnown s k id
  with_text-IsKnown none s k id carries h = absurd (cc)
  with_text-IsKnown (some text) s k id carries h =
      elim (Result-cases (parse_access_token jwt m (text_of text) now)) [
        | inr (e, bad) ↦ absurd (parse_failure-stops e id (rw bad at h))
        | inl (claims, parsed) ↦
            validated-IsKnown text claims s k id carries parsed _ refl (rw parsed at h)
      ]

  auth_middleware-IsKnown :
      (s : db.State) (k : store.State) (id : Identity)
      → (auth_middleware db store jwt m text_of initialized now at header (s, k)).0 ≡ passed id
      → IsKnown s k id
  unfolding auth_middleware
  auth_middleware-IsKnown s k id h = elim (Bool-cases (is_blank header)) [
    | inl blank ↦ absurd (let l = rw blank at h in cc)
    | inr full ↦ with_text-IsKnown (bearer header) s k id refl (rw full at h)
  ]

  with_text-view :
      (o : Option String) (s : db.State) (k : store.State)
      → view (with_text db store jwt m text_of initialized now at header o (s, k)).1.0 ≡ view s
  with_text-view none s k = refl
  with_text-view (some text) s k =
      elim (Result-cases (parse_access_token jwt m (text_of text) now)) [
        | inr (e, bad) ↦ rw bad refl
        | inl (claims, parsed) ↦
            elim (validate_access_token_ends db store initialized claims at s k) [
              | decided p q ↦ rw parsed q
              | Validation.fault e p f q ↦ rw parsed q
            ]
      ]

  pub auth_middleware-view :
      (s : db.State) (k : store.State)
      → view (auth_middleware db store jwt m text_of initialized now at header (s, k)).1.0 ≡ view s
  unfolding auth_middleware
  auth_middleware-view s k = elim (Bool-cases (is_blank header)) [
    | inl blank ↦ rw blank refl
    | inr full ↦ rw full (with_text-view (bearer header) s k)
  ]

  -- A role of the user carries a permission with the code.
  abbrev pub Holds : String → ℤ → Tables → Type 0
  Holds permission_code user_id t =
      reaches t (is_wanted db initialized user_id permission_code) t.user_roles ≡ true

  has_permission-Holds :
      (permission_code : String) (user_id : ℤ) (s : db.State)
      → (has_permission db initialized user_id permission_code s).0 ≡ ok true
      → Holds permission_code user_id (view s)
  has_permission-Holds permission_code user_id s h =
      elim (has_permission-Implements db initialized user_id permission_code s) [
        | refusal e v p q ↦ absurd (cc)
        | fault e p f q ↦ absurd (cc)
        | success a u v p q ↦
            let yes : a ≡ true = cc in
            elim (Bool-cases (leb_ℤ user_id (pos 0) || is_blank permission_code)) [
              | inl bad ↦ absurd (let l = rw bad at v in cc)
              | inr good ↦ elim (Bool-cases initialized) [
                | inr missing ↦ absurd (let l = rw (good, missing) at v in cc)
                | inl ready ↦ (let l = rw (good, ready) at v in cc)
              ]
            ]
      ]

  after_check-ok : (r : Result Bool) → after_check db initialized r ≡ passed tt → r ≡ ok true
  after_check-ok (ok true) h = refl
  after_check-ok (ok false) h = absurd (cc)
  after_check-ok (err e) h = absurd (cc)

  require_permission-Holds :
      (permission_code : String) (user_id : ℤ) (s : db.State)
      → (require_permission db initialized permission_code (some user_id) s).0 ≡ passed tt
      → Holds permission_code user_id (view s)
  unfolding require_permission
  require_permission-Holds permission_code user_id s h =
      elim (Bool-cases (is_blank permission_code)) [
        | inl blank ↦ absurd (let l = rw blank at h in cc)
        | inr full ↦ elim (Bool-cases (leb_ℤ user_id (pos 0))) [
          | inl bad ↦ absurd (let l = rw (full, bad) at h in cc)
          | inr good ↦
              has_permission-Holds permission_code user_id s
                (after_check-ok _ (rw (full, good) at h))
        ]
      ]

  pub then_permission-passes :
      (permission_code : String) (first_step : Step Identity) (s : db.State × store.State)
      (id : Identity)
      → (then_permission db store jwt m text_of initialized permission_code first_step s).0
        ≡ passed id
      → (first_step ≡ passed id)
        × ((require_permission db initialized permission_code (some id.user_id) s.0).0 ≡ passed tt)
  then_permission-passes permission_code (stopped r) s id h = absurd (cc)
  then_permission-passes permission_code (passed known) (s, k) id h = pass_on-passed known _ refl h
    where
      pass_on-passed :
          (known : Identity) (r : Step (Unit {0}))
          → (require_permission db initialized permission_code (some known.user_id) s).0 ≡ r
          → pass_on known r ≡ passed id
          → (passed known ≡ passed id)
            × ((require_permission db initialized permission_code (some id.user_id) s).0
                ≡ passed tt)
      pass_on-passed known (stopped r) asked l = absurd (cc)
      pass_on-passed known (passed tt) asked l =
          let same : known ≡ id = cc in (l, rw (← same) asked)

  -- A request reaches a handler behind both middlewares only with the access token of an active
  -- user: the token is one that the manager reads, it carries the version that the row of the user
  -- has now, the store does not hold it as revoked, and a role of that user carries the permission
  -- of the route. The handler is told that user.
  pub guarded-IsAdmitted :
      (permission_code : String) (s : db.State) (k : store.State) (id : Identity)
      → (guarded db store jwt m text_of initialized permission_code now at header (s, k)).0
        ≡ passed id
      → IsKnown s k id × Holds permission_code id.user_id (view s)
  unfolding guarded
  guarded-IsAdmitted permission_code s k id h =
      let o = auth_middleware db store jwt m text_of initialized now at header (s, k) in
      let (known, allowed) = then_permission-passes permission_code o.0 o.1 id h in
      (
        auth_middleware-IsKnown s k id known,
        rw (← auth_middleware-view s k)
            (require_permission-Holds permission_code id.user_id o.1.0 allowed),
      )
