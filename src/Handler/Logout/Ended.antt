-- ===== src/Handler/Logout/Ended.antt =====
-- `LogoutHandler`: what its success rests on, and that neither token is of use after it.
use go_user_system.Common.{
  String, true, Option, none, some, ◌≡◌, refl, Bool-cases, Option-cases, inl, inr, ◌⊎◌,
}
use go_user_system.Common.Int.{eq_ℤ}
use go_user_system.Common.Text.{is_empty}
use go_user_system.Common.Time.{Time}
use go_user_system.Result.{Result, ok, err, Result-cases}
use go_user_system.Token.{UserClaims, parse_refresh_token}
use go_user_system.Service.Auth.{revoke_refresh_token}
use go_user_system.Service.Access.{revoke_access}
use go_user_system.Handler.{UserHandler, request_refresh_token}
use go_user_system.Handler.Logout.{
  logged_out, LogoutMoment, Both, Ending, optional_access_token, end_refresh, after_refresh,
  with_access, logout_handler,
}

module _ (h : UserHandler) (at : LogoutMoment) where
  open h use {db, store, jwt}

  abbrev hash_of : String → String
  hash_of value = h.hash_token (h.text_of value)

  -- The revocation of the refresh token at a state.
  abbrev pub ending : String → UserClaims → db.State → Result (Unit {0}) × db.State
  ending value claims s =
      revoke_refresh_token db h.initialized claims.user_id claims.jti (hash_of value) at.ended_at s

  -- A success without an access token: the refresh token was revoked, at the state of before.
  pub record IsEnded (value : String) (claims : UserClaims) (s : Both h at) (o : Ending h at)
      : Type 0 where
    pub has_revoked : (ending value claims s.0).0 ≡ ok tt
    pub is_state : o.1 ≡ ((ending value claims s.0).1, s.1)

  after_refresh-ok :
      (r : Result (Unit {0})) (s : Both h at)
      → (after_refresh h at r s).0 ≡ logged_out
      → (r ≡ ok tt) × ((after_refresh h at r s).1 ≡ s)
  after_refresh-ok (ok tt) s e = (refl, refl)
  after_refresh-ok (err f) s e = absurd (cc)

  end_refresh-IsEnded :
      (value : String) (claims : UserClaims) (s : Both h at)
      → (end_refresh h at value claims s).0 ≡ logged_out
      → IsEnded value claims s (end_refresh h at value claims s)
  end_refresh-IsEnded value claims (s, k) e =
      let (done, same) = after_refresh-ok _ _ e in record { has_revoked = done; is_state = same }

  -- With an access token: it is of the same user, its revocation succeeded, and the refresh token
  -- was revoked at the state after.
  pub record BothEnded (value : String) (claims access : UserClaims) (s : Both h at)
      (o : Ending h at) : Type 0 where
    pub expires_at : Time
    pub has_expiry : access.expires_at ≡ some expires_at
    pub is_same_user : eq_ℤ access.user_id claims.user_id ≡ true
    pub has_revoked :
        (revoke_access db store access.jti expires_at at.revoking_at at.stored_at s).0 ≡ ok tt
    pub has_ended :
        IsEnded value claims
          (revoke_access db store access.jti expires_at at.revoking_at at.stored_at s).1
          o

  end_access-BothEnded :
      (value : String) (claims access : UserClaims) (s : Both h at)
      → (with_access h at value claims (some access) s).0 ≡ logged_out
      → BothEnded value claims access s (with_access h at value claims (some access) s)
  end_access-BothEnded value claims access s e =
      elim (Bool-cases (eq_ℤ access.user_id claims.user_id)) [
        | inr other ↦ absurd (let k = rw other at e in cc)
        | inl mine ↦ elim (Option-cases access.expires_at) [
          | inl missing ↦ absurd (let k = rw (mine, missing) at e in cc)
          | inr (expires_at, found) ↦
              let o = revoke_access db store access.jti expires_at at.revoking_at at.stored_at s in
              elim (Result-cases o.0) [
                | inr (f, lost) ↦ absurd (let k = rw (mine, found, lost) at e in cc)
                | inl (u, done) ↦ record {
                  expires_at = expires_at;
                  has_expiry = found;
                  is_same_user = mine;
                  has_revoked = done;
                  has_ended =
                      rw (mine, found, done)
                        (end_refresh-IsEnded value claims o.1 (rw (mine, found, done) at e));
                }
              ]
        ]
      ]

  -- A logout that ends with a success has one of the two forms.
  pub logout_handler-IsEnded :
      (header : String) (cookie : Option String) (body : String) (claims : UserClaims)
      (s : Both h at)
      → let value = request_refresh_token cookie body in
        parse_refresh_token jwt h.manager (h.text_of value) at.parsed_at ≡ ok claims
        → (logout_handler h at header cookie (some body) s).0 ≡ logged_out
        → let o = logout_handler h at header cookie (some body) s in
          ((optional_access_token h at header ≡ none) × IsEnded value claims s o)
          ⊎ ((access : UserClaims) × (optional_access_token h at header ≡ some access)
              × BothEnded value claims access s o)
  unfolding logout_handler
  logout_handler-IsEnded header cookie body claims s parsed e =
      let value = request_refresh_token cookie body in
      elim (Bool-cases (is_empty value)) [
        | inl empty ↦ absurd (let k = rw empty at e in cc)
        | inr full ↦ elim (Option-cases (optional_access_token h at header)) [
          | inl missing ↦ inl (
            missing,
            rw (full, parsed, missing)
                (end_refresh-IsEnded value claims s (rw (full, parsed, missing) at e)),
          )
          | inr (access, found) ↦ inr (
            access,
            found,
            rw (full, parsed, found)
                (end_access-BothEnded value claims access s (rw (full, parsed, found) at e)),
          )
        ]
      ]
