-- ===== src/Service/Auth/LoggedOut.antt =====
-- `RevokeRefreshToken`, then `RotateRefreshToken` of the same token.
use go_user_system.Common.{String, Bool, false, none, some, List, first, ◌≡◌, ◌≢◌, arith, sym}
use mathlib.Core.Path.{subst}
use go_user_system.Common.Int.{ℤ}
use go_user_system.Common.Time.{Time}
use go_user_system.Model.{RefreshToken, logout}
use go_user_system.Result.{Result, ok}
use go_user_system.Database.{Database, Tables}
use go_user_system.Repository.{has_jti}
use go_user_system.Service.Auth.{is_some, rotate_refresh_token, revoke_refresh_token}
use go_user_system.Service.Auth.Sessions.{rotate_refresh_token_ends}
use go_user_system.Service.Auth.Logout
use go_user_system.Service.Auth.Logout.{LogoutEnds, revoke_refresh_token_ends}
use go_user_system.Service.Auth.Spent.{IsSpent, replaced-spends}
use go_user_system.Service.Auth.Calls.{Call, run}
use go_user_system.Service.Auth.Reuse.{run-IsSpent, ok-spends}

module _ (db : Database) (jti : String) where
  open db use {State, view}

  held-revokes :
      (initialized : Bool) (user_id : ℤ) (hash : String) (now : Time) (t : Tables)
      (c : RefreshToken)
      → first (has_jti db jti) t.tokens ≡ some c
      → is_some c.revoked_at ≡ false
      → Logout.request_verdict db user_id jti hash now initialized t ≢ Logout.revoked_before
  held-revokes initialized user_id hash now t c found held v =
      let k = rw (found, held) at v in ground arith

  logout-IsSpent :
      (initialized : Bool) (user_id : ℤ) (hash : String) (now : Time) (t : Tables)
      (c : RefreshToken) (o : Result (Unit {0}) × State)
      → first (has_jti db jti) t.tokens ≡ some c
      → is_some c.revoked_at ≡ false
      → LogoutEnds db user_id jti hash now t
          (Logout.request_verdict db user_id jti hash now initialized t)
          o
      → o.0 ≡ ok tt
      → IsSpent db jti (view o.1)
  logout-IsSpent initialized user_id hash now t c o found held (LogoutEnds.refusal e v r w) k =
      absurd (cc)
  logout-IsSpent initialized user_id hash now t c o found held (LogoutEnds.nothing v r w) k =
      absurd (held-revokes initialized user_id hash now t c found held v)
  logout-IsSpent initialized user_id hash now t c o found held (LogoutEnds.success v r w) k =
      subst (IsSpent db jti) (sym w) (replaced-spends db jti now logout none t c found)
  logout-IsSpent initialized user_id hash now t c o found held (LogoutEnds.fault e r f w) k =
      absurd (cc)

  -- Once a logout has succeeded for a refresh token that was not revoked, no rotation of it
  -- succeeds, whatever calls on the session service come between, and whoever presents it with
  -- whatever data.
  pub logout_ends_session :
      (initialized again : Bool) (user_id user_id' version' : ℤ) (hash hash' : String)
      (c next : RefreshToken) (now requested checked written : Time) (calls : List Call) (s : State)
      → first (has_jti db jti) (view s).tokens ≡ some c
      → is_some c.revoked_at ≡ false
      → (revoke_refresh_token db initialized user_id jti hash now s).0 ≡ ok tt
      → (rotate_refresh_token db again user_id' version' jti hash'
          (some next)
          requested
          checked
          written
          (run db calls (revoke_refresh_token db initialized user_id jti hash now s).1)).0
        ≢ ok tt
  logout_ends_session initialized again user_id user_id' version' hash hash' c next now requested
        checked written calls s found held done bad =
      let o = revoke_refresh_token db initialized user_id jti hash now s in
      let spent =
        logout-IsSpent initialized user_id hash now (view s) c o found held
          (revoke_refresh_token_ends db user_id jti hash now initialized s) done in
      let later = run-IsSpent db jti calls o.1 spent in
      let s' = run db calls o.1 in
      (ok-spends db jti again user_id' version' hash' next requested checked written (view s') _
          (rotate_refresh_token_ends db user_id' version' jti hash' next checked written again
            requested s')
          bad).0
        later
