-- ===== src/Handler/Logout/Session.antt =====
-- `LogoutHandler`, then `RefreshTokenHandler` and the check of access tokens.
use go_user_system.Common.{
  String, Bool, false, Option, some, List, first, All, ◌≡◌, ◌≢◌, refl, sym, ◌∙◌, ap, Bool-cases,
  inl, inr,
}
use mathlib.Core.Path.{subst}
use go_user_system.Common.Int.{pos, ◌<ℤ◌, ◌≤ℤ◌, leb_ℤ}
use go_user_system.Common.Text.{is_blank}
use go_user_system.Common.Time.{Time, add, sub}
use go_user_system.Model.{RefreshToken}
use go_user_system.Result.{ok}
use go_user_system.Database.{Database}
use go_user_system.AuthState.Interface.{Store}
use go_user_system.Repository.{has_jti}
use go_user_system.Token.{UserClaims, IssuedToken, parse_refresh_token}
use go_user_system.Service.Auth.{is_some}
use go_user_system.Service.Auth.Calls
use go_user_system.Service.Auth.LoggedOut.{logout_ends_session}
use go_user_system.Service.Access.{revoke_access, validate_access_token}
use go_user_system.Service.Access.Revoked.{Call, run, Spares, revokes, run-keeps, never_accepted}
use go_user_system.Handler.{
  UserHandler, Moment, refreshed, request_refresh_token, refresh_token_handler,
}
use go_user_system.Handler.Refresh.{handler-IsRotation}
use go_user_system.Handler.Logout.{
  logged_out, LogoutMoment, Both, optional_access_token, logout_handler,
}
use go_user_system.Handler.Logout.Ended.{ending, logout_handler-IsEnded}

-- The revocation of an access token writes no table.
revoke_access-database :
    (db : Database) (store : Store) (jti : String) (expires_at now at : Time)
    (s : db.State × store.State)
    → (revoke_access db store jti expires_at now at s).1.0 ≡ s.0
unfolding revoke_access
revoke_access-database db store jti expires_at now at (s, k) = elim (Bool-cases (is_blank jti)) [
  | inl blank ↦ rw blank refl
  | inr full ↦ elim (Bool-cases (leb_ℤ (sub expires_at now) (pos 0))) [
    | inl over ↦ rw (full, over) refl
    | inr live ↦ rw (full, live) refl
  ]
]

module _ (h : UserHandler) (at : LogoutMoment) where
  open h use {db, store, jwt}

  -- The revocation of the refresh token behind a success ran at the tables of before.
  ended_at_start :
      (header : String) (cookie : Option String) (body : String) (claims : UserClaims)
      (s : Both h at)
      → let value = request_refresh_token cookie body in
        let o = logout_handler h at header cookie (some body) s in
        parse_refresh_token jwt h.manager (h.text_of value) at.parsed_at ≡ ok claims
        → o.0 ≡ logged_out
        → ((ending h at value claims s.0).0 ≡ ok tt) × (o.1.0 ≡ (ending h at value claims s.0).1)
  ended_at_start header cookie body claims s parsed e =
      elim (logout_handler-IsEnded h at header cookie body claims s parsed e) [
        | inl (missing, one) ↦ (one.has_revoked, ap (λ p. p.0) one.is_state)
        | inr (access, found, both) ↦
            let value = request_refresh_token cookie body in
            let same =
              revoke_access-database db store access.jti both.expires_at at.revoking_at at.stored_at
                s in
            (
              ap (λ t. (ending h at value claims t).0) (sym same) ∙ both.has_ended.has_revoked,
              ap (λ p. p.0) both.has_ended.is_state ∙ ap (λ t. (ending h at value claims t).1) same,
            )
      ]

  -- Once a logout has succeeded for a refresh token that was not revoked, no request renews the
  -- session with a token of its identifier, whatever calls on the session service come between.
  pub logout_handler-ends_session :
      (at' : Moment) (header : String) (cookie cookie' : Option String) (body body' : String)
      (claims claims' : UserClaims) (c : RefreshToken) (a n : IssuedToken jwt.Text)
      (calls : List Calls.Call) (s : Both h at)
      → parse_refresh_token jwt h.manager
          (h.text_of (request_refresh_token cookie body))
          at.parsed_at
        ≡ ok claims
      → parse_refresh_token jwt h.manager
          (h.text_of (request_refresh_token cookie' body'))
          at'.parsed_at
        ≡ ok claims'
      → claims'.jti ≡ claims.jti
      → first (has_jti db claims.jti) (db.view s.0).tokens ≡ some c
      → is_some c.revoked_at ≡ false
      → (logout_handler h at header cookie (some body) s).0 ≡ logged_out
      → let t = (logout_handler h at header cookie (some body) s).1.0 in
        (refresh_token_handler db jwt h.manager h.text_of h.hash_token h.initialized at' cookie'
          (some body')
          (Calls.run db calls t)).0
        ≢ refreshed a n
  logout_handler-ends_session at' header cookie cookie' body body' claims claims' c a n calls s
        parsed parsed' same found held e renewed =
      let value = request_refresh_token cookie body in
      let (done, left) = ended_at_start header cookie body claims s parsed e in
      let two =
        handler-IsRotation db jwt h.manager h.text_of h.hash_token h.initialized at' cookie' body'
          claims' _ a n parsed' renewed in
      let again = rw (same, left) at two.has_rotated in
      logout_ends_session db claims.jti h.initialized h.initialized claims.user_id claims'.user_id
        claims'.auth_version (h.hash_token (h.text_of value))
        (h.hash_token (h.text_of (request_refresh_token cookie' body'))) c two.next at.ended_at
        at'.requested at'.checked at'.written calls s.0 found held done again

  -- Once a logout has succeeded with a valid access token, that token is not accepted before a time
  -- that is no later than the end of what the store keeps of the lifetime that the service
  -- computed. Between them come any calls on the access tokens and the limits of logins, if the
  -- store's clock is before that time at each; a further revocation, as that of a second logout,
  -- must be of a token with another key, or last until that time at least. The database may change
  -- in any way.
  pub logout_handler-ends_access :
      (header : String) (cookie : Option String) (body : String) (claims access : UserClaims)
      (expires_at end later : Time) (initialized : Bool) (calls : List (Call db.State))
      (s : Both h at)
      → parse_refresh_token jwt h.manager
          (h.text_of (request_refresh_token cookie body))
          at.parsed_at
        ≡ ok claims
      → optional_access_token h at header ≡ some access
      → access.expires_at ≡ some expires_at
      → at.revoking_at <ℤ expires_at
      → (logout_handler h at header cookie (some body) s).0 ≡ logged_out
      → end ≤ℤ add at.stored_at (store.lasting (sub expires_at at.revoking_at))
      → All (Spares db store h.lower h.limit access.jti end) calls
      → later <ℤ end
      → let t = (logout_handler h at header cookie (some body) s).1 in
        (validate_access_token db store initialized
          (some access)
          later
          (run db store h.lower h.limit calls t)).0
        ≢ ok tt
  logout_handler-ends_access header cookie body claims access expires_at end later initialized calls
        s parsed found expiry live e sooner within before =
      elim (logout_handler-IsEnded h at header cookie body claims s parsed e) [
        | inl (missing, one) ↦ absurd (cc)
        | inr (access', found', both) ↦
            let same : access' ≡ access = cc in
            let expiry' : both.expires_at ≡ expires_at = cc in
            let t = (logout_handler h at header cookie (some body) s).1 in
            let whole = add at.stored_at (store.lasting (sub both.expires_at at.revoking_at)) in
            let kept =
              subst (λ p. store.Revoked access'.jti whole p.1) (sym both.has_ended.is_state)
                (revokes db store h.lower h.limit access'.jti both.expires_at at.revoking_at
                  at.stored_at s (rw expiry' live) both.has_revoked) in
            let held =
              store.revoked_until access.jti _ end t.1 sooner (rw (same, expiry') at kept) in
            never_accepted db store h.lower h.limit initialized access end later
              (run db store h.lower h.limit calls t)
              (run-keeps db store h.lower h.limit access.jti end calls t within held) before
      ]
