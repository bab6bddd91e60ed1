-- ===== src/Service/Access/Tests.antt =====
-- Runs of the access-token service on the reference database and the memory store, and instances of
-- its theorems. The digest of a text is the text.
use go_user_system.Common.{String, true, none, some, ◌≡◌, ◌≢◌, refl, List, [], ◌∷◌, arith, inl, inr}
use go_user_system.Common.Int.{pos, ◌+ℤ◌, ◌-ℤ◌, increment}
use go_user_system.Common.Dict.{lookup, insert}
use go_user_system.Common.Text.{trim_space}
use go_user_system.Common.Time.{sub}
use go_user_system.Errors.{error_is}
use go_user_system.Model.{User}
use go_user_system.Result.{Result, ok, err}
use go_user_system.Database.{Tables}
use go_user_system.Database.Reference.{reference}
use go_user_system.Dao.{get_user_by_id}
use go_user_system.AuthState.{
  MemoryStore, new_memory_store, access_revocation_key, account_failure_key, ip_failure_key,
  revoke_access_token, is_access_token_revoked, check_login_limit, record_login_failure,
  reset_login_account, increment_counter, counter_retry_after,
}
use go_user_system.AuthState.Interface.{Store, memory_store}
use go_user_system.Token.{UserClaims}
use go_user_system.Service.Access.{
  LoginRateLimit, validate_access_token, revoke_access, check_login_allowed, record_failed_login,
  reset_login_failures, access_invalid,
}
use go_user_system.Service.Access.Validation.{ValidationEnds, validate_access_token_ends}
use go_user_system.AuthState.Redis
use go_user_system.AuthState.Redis.Reference.{reference as redis}
use go_user_system.AuthState.Redis.Revoking.{redis_store}
use go_user_system.Service.Access.InRedis.{redis_revocation_holds}
use go_user_system.Service.Access.Lapse.{revocation_lapses}
use go_user_system.Service.Access.Revoked.{
  Call, validate, revoke, fail, elsewhere, perform, run, revoked_access_stays_out,
}

access : Unit {0}
unfolding get_user_by_id revoke_access_token is_access_token_revoked check_login_limit
    record_login_failure reset_login_account increment_counter counter_retry_after
    validate_access_token revoke_access check_login_allowed record_failed_login reset_login_failures
    perform run sub ◌-ℤ◌ ◌+ℤ◌ trim_space error_is access_revocation_key account_failure_key
    ip_failure_key new_memory_store lookup insert increment Redis.revoke_access_token
    Redis.is_access_token_revoked
access = tt

abbrev same : String → String
same s = s

abbrev kept : Store
kept = memory_store same

abbrev cid : User
cid = record {
  id = pos 4;
  username = "cid";
  password_hash = "h";
  nickname = "cid";
  status = pos 1;
  auth_version = pos 2;
  last_login_at = none;
  deleted_at = none;
}

abbrev one_user : Tables
one_user = record {
  users = cid ∷ [];
  tokens = [];
  roles = [];
  permissions = [];
  user_roles = [];
  role_permissions = [];
  next_user_id = pos 5;
  next_token_id = pos 1;
}

abbrev claims : UserClaims
claims = record {
  username = "cid";
  user_id = pos 4;
  token_type = "access";
  auth_version = pos 2;
  jti = "a1";
  issuer = "go-user-system";
  issued_at = some (pos 1);
  expires_at = some (pos 90);
  id = "a1";
}

abbrev limits : LoginRateLimit
limits = record { account_limit = pos 2; ip_limit = pos 9; window = pos 60 }

abbrev start : Tables × MemoryStore
start = (one_user, new_memory_store)

abbrev revoked : Result (Unit {0}) × (Tables × MemoryStore)
revoked = revoke_access reference kept "a1" (pos 90) (pos 10) (pos 11) start

access_tests :
    ((validate_access_token reference kept true (some claims) (pos 10) start).0 ≡ ok tt)
    × (revoked.0 ≡ ok tt)
    × ((validate_access_token reference kept true (some claims) (pos 20) revoked.1).0
        ≡ err access_invalid)
    × ((check_login_allowed kept same limits " cid" "ip"
          (pos 20)
          (record_failed_login kept same limits "cid" "ip"
            (pos 11)
            (record_failed_login kept same limits "cid " "ip" (pos 10) new_memory_store).1).1).0
        ≡ ok (pos 50))
unfolding access
access_tests = (refl, refl, refl, refl)

validate_access_token_ends_example :
    ValidationEnds reference kept true claims
      (pos 20)
      one_user
      (ok true)
      (validate_access_token reference kept true (some claims) (pos 20) revoked.1)
unfolding access
validate_access_token_ends_example =
    validate_access_token_ends reference kept true claims (pos 20) one_user revoked.1.1

abbrev between : List (Call Tables)
between =
    validate true (some claims) (pos 20)
    ∷ fail "cid" "ip" (pos 30)
    ∷ revoke "a1" (pos 90) (pos 40) (pos 41)
    ∷ revoke "a2" (pos 60) (pos 42) (pos 43)
    ∷ elsewhere one_user
    ∷ []

revoked_access_stays_out_example :
    (validate_access_token reference kept true
      (some claims)
      (pos 80)
      (run reference kept same limits between revoked.1)).0
    ≢ ok tt
unfolding access
revoked_access_stays_out_example =
    revoked_access_stays_out reference kept same limits true claims (pos 90) (pos 10) (pos 11)
      (pos 90) (pos 80) between start (ground arith) refl (ground arith)
      (ground arith, (ground arith, (inr (ground arith), (inl refl, (tt, tt))))) (ground arith)

revocation_lapses_example :
    (validate_access_token reference kept true
      (some claims)
      (pos 95)
      (one_user, (revoke_access reference kept "a1" (pos 90) (pos 10) (pos 11) start).1.1)).0
    ≡ (validate_access_token reference kept true (some claims) (pos 95) start).0
unfolding access
revocation_lapses_example =
    revocation_lapses same reference true claims (pos 90) (pos 10) (pos 11) (pos 95) one_user
      new_memory_store refl (ground arith)

abbrev again : List (Call Tables)
again = validate true (some claims) (pos 20) ∷ revoke "a1" (pos 5000000) (pos 30) (pos 31) ∷ []

redis_revocation_holds_example :
    (validate_access_token reference (redis_store redis same) true (some claims) (pos 2000000) (
      run reference
        (redis_store redis same)
        same
        limits
        again
        (revoke_access reference
          (redis_store redis same)
          "a1"
          (pos 5000000)
          (pos 10)
          (pos 11)
          (one_user, [])).1)).0
    ≢ ok tt
unfolding access
redis_revocation_holds_example =
    redis_revocation_holds reference redis same same limits true claims (pos 5000000) (pos 10)
      (pos 11) (pos 4000000) (pos 2000000) again (one_user, []) (ground arith) refl (ground arith)
      (ground arith, (inr (ground arith), tt)) (ground arith)
