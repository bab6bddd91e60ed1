-- ===== src/Service/Access/Revoked.antt =====
-- Access tokens after their revocation, and the calls of the service that come between.
use go_user_system.Common.{
  String, Bool, true, false, not, first, Option, none, some, ◌≡◌, ◌≢◌, refl, arith, List, [], ◌∷◌,
  All, sym, ◌∙◌, ◌||◌, ◌⊎◌, Bool-cases, inl, inr,
}
use go_user_system.Common.Int.{pos, ◌<ℤ◌, ◌≤ℤ◌, leb_ℤ, eq_ℤ}
use go_user_system.Common.Text.{is_blank}
use go_user_system.Common.Time.{Time, add, sub, sub-pos_iff}
use go_user_system.Errors.{Error}
use go_user_system.Result.{Result, ok, err, map_error, Result-cases}
use go_user_system.Database.{Database, Tables, visible}
use go_user_system.Model.{User, user_status_active}
use go_user_system.Dao.{has_id, get_user_by_id}
use go_user_system.AuthState.Interface.{Store}
use go_user_system.Token.{UserClaims}
use go_user_system.Service.Access.{
  LoginRateLimit, validate_access_token, revoke_access, check_login_allowed, record_failed_login,
  reset_login_failures, is_bad_claims, is_bad_limit,
}
use go_user_system.Service.Access.Validation.{
  validity, by_row, validate_access_token_ends, decided, fault,
}

-- The calls of the service that use the store. Other calls leave a database in any state.
pub data Call (S : Type 0) : Type 0 where
  validate : Bool → Option UserClaims → Time → Call S
  revoke : String → Time → Time → Time → Call S
  check : String → String → Time → Call S
  fail : String → String → Time → Call S
  reset : String → Time → Call S
  elsewhere : S → Call S

module _ (db : Database) (store : Store) (lower : String → String) (limit : LoginRateLimit) where
  abbrev Both : Type 0
  Both = db.State × store.State

  unfoldable pub perform : Call db.State → Both → Both
  perform (validate initialized claims at) s =
      (validate_access_token db store initialized claims at s).1
  perform (revoke jti expires_at now at) s = (revoke_access db store jti expires_at now at s).1
  perform (elsewhere t) (s, m) = (t, m)
  perform (check account ip at) (s, m) =
      (s, (check_login_allowed store lower limit account ip at m).1)
  perform (fail account ip at) (s, m) =
      (s, (record_failed_login store lower limit account ip at m).1)
  perform (reset account at) (s, m) = (s, (reset_login_failures store lower limit account at m).1)

  unfoldable pub run : List (Call db.State) → Both → Both
  run [] s = s
  run (call ∷ more) s = run more (perform call s)

  -- The store's reading of the clock at a call is before a time; and a revocation is of a token
  -- with another key, or lasts until that time at least.
  abbrev pub Spares : String → Time → Call db.State → Type 0
  Spares jti end (validate initialized claims at) = at <ℤ end
  Spares jti end (revoke other expires_at now at) =
      (store.shares_key other jti ≡ false) ⊎ (end ≤ℤ add at (store.lasting (sub expires_at now)))
  Spares jti end (check account ip at) = at <ℤ end
  Spares jti end (fail account ip at) = at <ℤ end
  Spares jti end (reset account at) = at <ℤ end
  Spares jti end (elsewhere t) = Unit

  revoke-keeps :
      (jti other : String) (end expires_at now at : Time) (s : Both)
      → Spares jti end (revoke other expires_at now at)
      → store.Revoked jti end s.1
      → store.Revoked jti end (revoke_access db store other expires_at now at s).1.1
  unfolding revoke_access
  revoke-keeps jti other end expires_at now at (s, m) spared h =
      elim (Bool-cases (is_blank other)) [
        | inl blank ↦ rw blank h
        | inr full ↦ elim (Bool-cases (leb_ℤ (sub expires_at now) (pos 0))) [
          | inl over ↦ rw (full, over) h
          | inr live ↦
              rw (full, live) (store.revoke_keeps jti other end at (sub expires_at now) m h spared)
        ]
      ]

  -- `ValidateAccessToken` asks the store about its own token at most, and does no more with it.
  validate-keeps :
      (jti : String) (end : Time) (initialized : Bool) (claims : UserClaims) (at : Time) (s : Both)
      → at <ℤ end
      → store.Revoked jti end s.1
      → store.Revoked jti end (validate_access_token db store initialized (some claims) at s).1.1
  unfolding validate_access_token
  validate-keeps jti end initialized claims at (s, m) before h = elim (Bool-cases initialized) [
    | inr missing ↦ rw missing h
    | inl ready ↦ elim (Bool-cases (is_bad_claims claims)) [
      | inl bad ↦ rw (ready, bad) h
      | inr good ↦ elim (Result-cases (get_user_by_id db claims.user_id s).0) [
        | inr (e, lost) ↦ rw (ready, good, lost) h
        | inl (u, found) ↦
            let stale =
              not (eq_ℤ u.status user_status_active)
              || not (eq_ℤ u.auth_version claims.auth_version) in
            elim (Bool-cases stale) [
              | inl old ↦ rw (ready, good, found, old) h
              | inr current ↦
                  let asked = store.is_revoked_keeps jti claims.jti end at m h before in
                  elim (Result-cases (store.is_revoked claims.jti at m).0) [
                    | inr (e, lost) ↦ rw (ready, good, found, current, lost) asked
                    | inl (true, told) ↦ rw (ready, good, found, current, told) asked
                    | inl (false, told) ↦ rw (ready, good, found, current, told) asked
                  ]
            ]
      ]
    ]
  ]

  perform-keeps :
      (jti : String) (end : Time) (call : Call db.State) (s : Both)
      → Spares jti end call
      → store.Revoked jti end s.1
      → store.Revoked jti end (perform call s).1
  unfolding perform validate_access_token check_login_allowed record_failed_login
      reset_login_failures
  perform-keeps jti end (validate true none at) s before h = h
  perform-keeps jti end (validate false none at) s before h = h
  perform-keeps jti end (validate initialized (some claims) at) s before h =
      validate-keeps jti end initialized claims at s before h
  perform-keeps jti end (revoke other expires_at now at) s spared h =
      revoke-keeps jti other end expires_at now at s spared h
  perform-keeps jti end (elsewhere t) (s, m) before h = h
  perform-keeps jti end (check account ip at) (s, m) before h =
      elim (Bool-cases (is_bad_limit limit)) [
        | inl bad ↦ rw bad h
        | inr good ↦ rw good (store.check_limit_keeps jti end at _ m h before)
      ]
  perform-keeps jti end (fail account ip at) (s, m) before h =
      elim (Bool-cases (is_bad_limit limit)) [
        | inl bad ↦ rw bad h
        | inr good ↦ rw good (store.record_failure_keeps jti end at _ m h before)
      ]
  perform-keeps jti end (reset account at) (s, m) before h =
      elim (Bool-cases (is_bad_limit limit)) [
        | inl bad ↦ rw bad h
        | inr good ↦ rw good (store.reset_account_keeps jti _ end at m h before)
      ]

  pub run-keeps :
      (jti : String) (end : Time) (calls : List (Call db.State)) (s : Both)
      → All (Spares jti end) calls
      → store.Revoked jti end s.1
      → store.Revoked jti end (run calls s).1
  unfolding run
  run-keeps jti end [] s within h = h
  run-keeps jti end (call ∷ more) s (before, within) h =
      run-keeps jti end more (perform call s) within (perform-keeps jti end call s before h)

  map_error-ok :
      {A : Type 0} {a : A} (f : Error → Error) (r : Result A) → map_error f r ≡ ok a → r ≡ ok a
  map_error-ok f (ok b) h = h
  map_error-ok f (err e) h = absurd (cc)

  pub revokes :
      (jti : String) (expires_at now at : Time) (s : Both)
      → now <ℤ expires_at
      → (revoke_access db store jti expires_at now at s).0 ≡ ok tt
      → store.Revoked jti
          (add at (store.lasting (sub expires_at now)))
          (revoke_access db store jti expires_at now at s).1.1
  unfolding revoke_access
  revokes jti expires_at now at (s, m) k done = elim (Bool-cases (is_blank jti)) [
    | inl blank ↦ absurd (let refused = rw blank at done in cc)
    | inr full ↦
        let lasting = (sub-pos_iff expires_at now).1 k in
        let held : leb_ℤ (sub expires_at now) (pos 0) ≡ false = ground arith in
        let result = map_error-ok _ _ (rw (full, held) at done) in
        rw (full, held) (store.revoke_lem jti (sub expires_at now) at m lasting result)
  ]

  by_row-ok :
      (claims : UserClaims) (answer : Result Bool) (row : Option User)
      → by_row claims answer row ≡ ok tt
      → answer ≡ ok false
  by_row-ok claims answer none h = absurd (cc)
  by_row-ok claims (ok false) (some u) h = refl
  by_row-ok claims (ok true) (some u) h = ground arith
  by_row-ok claims (err e) (some u) h = ground arith

  is_accepted-answer :
      (initialized : Bool) (claims : UserClaims) (answer : Result Bool) (t : Tables)
      → validity initialized claims answer t ≡ ok tt
      → answer ≡ ok false
  is_accepted-answer initialized claims answer t h = elim (Bool-cases initialized) [
    | inr missing ↦ absurd (cc)
    | inl ready ↦ elim (Bool-cases (is_bad_claims claims)) [
      | inl bad ↦ absurd (let r = rw (ready, bad) at h in cc)
      | inr good ↦
          by_row-ok claims answer (first (visible (has_id claims.user_id)) t.users)
            (rw (ready, good) at h)
    ]
  ]

  pub never_accepted :
      (initialized : Bool) (claims : UserClaims) (end at : Time) (s : Both)
      → store.Revoked claims.jti end s.1
      → at <ℤ end
      → (validate_access_token db store initialized (some claims) at s).0 ≢ ok tt
  never_accepted initialized claims end at (s, m) h before accepted =
      elim (validate_access_token_ends db store initialized claims at s m) [
        | decided p q ↦
            store.is_revoked_lem claims.jti end at m h before
              (is_accepted-answer initialized claims _ (db.view s) (sym p ∙ accepted))
        | fault e p f q ↦ absurd (cc)
      ]

  -- Once the revocation of an access token has succeeded, the token is not accepted before a time
  -- that is no later than the end of what the store keeps of the lifetime that the service has
  -- computed, whatever the claims with its id say. Between them come any calls on access tokens and
  -- the limits of logins in any order, if the store's clock is before that time at each; a further
  -- revocation must be of a token with another key, or last until that time at least. The database
  -- may change in any way.
  pub revoked_access_stays_out :
      (initialized : Bool) (claims : UserClaims) (expires_at now at end later : Time)
      (calls : List (Call db.State)) (s : Both)
      → now <ℤ expires_at
      → (revoke_access db store claims.jti expires_at now at s).0 ≡ ok tt
      → end ≤ℤ add at (store.lasting (sub expires_at now))
      → All (Spares claims.jti end) calls
      → later <ℤ end
      → (validate_access_token db store initialized
          (some claims)
          later
          (run calls (revoke_access db store claims.jti expires_at now at s).1)).0
        ≢ ok tt
  revoked_access_stays_out initialized claims expires_at now at end later calls s k done sooner
        within before =
      let t = (revoke_access db store claims.jti expires_at now at s).1 in
      let held =
        store.revoked_until claims.jti _ end t.1 sooner
          (revokes claims.jti expires_at now at s k done) in
      never_accepted initialized claims end later _ (run-keeps claims.jti end calls t within held)
        before
