-- ===== src/Handler/Logout/Total.antt =====
-- `LogoutHandler` reads the expiry of the access token through a pointer.
use go_user_system.Common.{
  String, Option, none, some, false, ◌≡◌, ◌≢◌, refl, Bool-cases, Option-cases, inl, inr,
}
use go_user_system.Common.Int.{eq_ℤ}
use go_user_system.Common.Text.{is_empty, trim_space}
use go_user_system.Result.{Result, ok, err, Result-cases}
use go_user_system.Token.{UserClaims, has_no_time, parse_access_token, parse_refresh_token}
use go_user_system.Token.Parsing.{parse_access_token-IsSound}
use go_user_system.Middleware.{bearer}
use go_user_system.Service.Access.{revoke_access}
use go_user_system.Handler.{UserHandler, request_refresh_token}
use go_user_system.Handler.Logout.{
  LogoutMoment, panicked, Both, optional_access_token, claims_of_text, after_refresh, after_access,
  end_refresh, with_access, logout_handler,
}

module _ (h : UserHandler) (at : LogoutMoment) where
  open h use {db, store, jwt}

  after_refresh-runs :
      (r : Result (Unit {0})) (s : Both h at) → (after_refresh h at r s).0 ≢ panicked
  after_refresh-runs (ok u) s e = cc
  after_refresh-runs (err f) s e = cc

  end_refresh-runs :
      (value : String) (claims : UserClaims) (s : Both h at)
      → (end_refresh h at value claims s).0 ≢ panicked
  end_refresh-runs value claims (s, k) = after_refresh-runs _ _

  after_access-runs :
      (value : String) (claims : UserClaims) (r : Result (Unit {0})) (s : Both h at)
      → (after_access h at value claims r s).0 ≢ panicked
  after_access-runs value claims (ok u) s e = end_refresh-runs value claims s e
  after_access-runs value claims (err f) s e = cc

  with_access-runs :
      (value : String) (claims : UserClaims) (access : Option UserClaims) (s : Both h at)
      → ((c : UserClaims) → access ≡ some c → has_no_time c ≡ false)
      → (with_access h at value claims access s).0 ≢ panicked
  with_access-runs value claims none s sound e = end_refresh-runs value claims s e
  with_access-runs value claims (some c) s sound e =
      elim (Bool-cases (eq_ℤ c.user_id claims.user_id)) [
        | inr other ↦ absurd (let k = rw other at e in cc)
        | inl mine ↦ elim (Option-cases c.expires_at) [
          | inl missing ↦ absurd (let timed = sound c refl in let k = rw missing at timed in cc)
          | inr (expires_at, found) ↦
              after_access-runs value claims
                (revoke_access db store c.jti expires_at at.revoking_at at.stored_at s).0 _
                (rw (mine, found) at e)
        ]
      ]

  claims_of_text_sound :
      (text : Option String) (c : UserClaims)
      → claims_of_text h at text ≡ some c
      → has_no_time c ≡ false
  claims_of_text_sound none c e = absurd (cc)
  claims_of_text_sound (some text) c e =
      elim (Result-cases (parse_access_token jwt h.manager (h.text_of text) at.access_parsed_at)) [
        | inr (f, lost) ↦ absurd (let k = rw lost at e in cc)
        | inl (d, parsed) ↦
            let same : d ≡ c = let k = rw parsed at e in cc in
            rw (← same)
              (parse_access_token-IsSound jwt h.manager (h.text_of text) at.access_parsed_at d
                parsed).0.has_times
      ]

  -- A logout never reads a nil pointer: an access token that is accepted carries its expiry. So
  -- every request to log out is answered.
  pub logout_handler_runs :
      (header : String) (cookie body : Option String) (s : Both h at)
      → (logout_handler h at header cookie body s).0 ≢ panicked
  unfolding logout_handler
  logout_handler_runs header cookie none s e = cc
  logout_handler_runs header cookie (some body) s e =
      let value = request_refresh_token cookie body in
      elim (Bool-cases (is_empty value)) [
        | inl empty ↦ absurd (let k = rw empty at e in cc)
        | inr full ↦
            elim (Result-cases (parse_refresh_token jwt h.manager (h.text_of value) at.parsed_at)) [
              | inr (f, lost) ↦ absurd (let k = rw (full, lost) at e in cc)
              | inl (claims, parsed) ↦
                  with_access-runs value claims (optional_access_token h at header) s
                    (claims_of_text_sound (bearer (trim_space header))) (rw (full, parsed) at e)
            ]
      ]
