-- ===== src/Service/Access/InRedis.antt =====
-- Revoked access tokens over the store in Redis.
use go_user_system.Common.{String, Bool, List, All, some, ◌≡◌, ◌≢◌}
use go_user_system.Common.Int.{◌<ℤ◌, ◌≤ℤ◌}
use go_user_system.Common.Time.{Time, add, sub}
use go_user_system.Result.{ok}
use go_user_system.Database.{Database}
use go_user_system.AuthState.Redis.{Redis, sent_ttl}
use go_user_system.AuthState.Redis.Revoking.{redis_store}
use go_user_system.Token.{UserClaims}
use go_user_system.Service.Access.{LoginRateLimit, validate_access_token, revoke_access}
use go_user_system.Service.Access.Revoked.{Call, run, Spares, revoked_access_stays_out}

-- Once the revocation of an access token in Redis has succeeded, the token is not accepted before a
-- time that is no later than the end of its lifetime, cut to whole milliseconds; also where a
-- command fails, as then the check fails too. Between them come any calls on access tokens and the
-- limits of logins, if the clock is before that time at each; a further revocation must be of a
-- token with another key, or last until that time at least. The database may change in any way.
pub redis_revocation_holds :
    (db : Database) (redis : Redis) (digest lower : String → String) (limit : LoginRateLimit)
    (initialized : Bool) (claims : UserClaims) (expires_at now at end later : Time)
    (calls : List (Call db.State)) (s : db.State × redis.State)
    → now <ℤ expires_at
    → (revoke_access db (redis_store redis digest) claims.jti expires_at now at s).0 ≡ ok tt
    → end ≤ℤ add at (sent_ttl (sub expires_at now))
    → All (Spares db (redis_store redis digest) lower limit claims.jti end) calls
    → later <ℤ end
    → (validate_access_token db (redis_store redis digest) initialized (some claims) later (
        run db
          (redis_store redis digest)
          lower
          limit
          calls
          (revoke_access db (redis_store redis digest) claims.jti expires_at now at s).1)).0
      ≢ ok tt
redis_revocation_holds db redis digest lower limit =
    revoked_access_stays_out db (redis_store redis digest) lower limit
