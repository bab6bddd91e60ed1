-- ===== src/AuthState/Redis/Tests.antt =====
-- Runs of the Redis store on the reference Redis, and instances of its theorems. The digest of a
-- text is the text.
use go_user_system.Common.{String, true, ◌≡◌, refl, [], ◌↔◌, ◌⊎◌}
use go_user_system.Common.Int.{ℤ, pos, ◌+ℤ◌, ◌-ℤ◌, ◌<ℤ◌, ◌≤ℤ◌}
use go_user_system.Common.Dict.{lookup, insert, erase}
use go_user_system.Common.Time.{sub}
use go_user_system.Result.{ok}
use go_user_system.Config.{atoi}
use go_user_system.AuthState.{access_revocation_key, account_failure_key, ip_failure_key}
use go_user_system.AuthState.Redis.{
  revoke_access_token, is_access_token_revoked, check_login_limit, record_login_failure,
  reset_login_account,
}
use go_user_system.AuthState.Redis.Limiting.{counted, check_login_limit_waits}
use go_user_system.AuthState.Redis.Reference.{Keyspace, reference, numeral}

redis : Unit {0}
unfolding access_revocation_key account_failure_key ip_failure_key revoke_access_token
    is_access_token_revoked check_login_limit record_login_failure reset_login_account lookup insert
    erase atoi numeral sub ◌+ℤ◌ ◌-ℤ◌
redis = tt

abbrev same : String → String
same s = s

abbrev empty : Keyspace
empty = []

-- Failures at five and at six milliseconds, in a window of ten.
abbrev two_failures : Keyspace
two_failures =
    (record_login_failure reference same "ann" "ip" (pos 2) (pos 9) (pos 10000000) (pos 6000000)
      (record_login_failure reference same "ann" "ip" (pos 2) (pos 9) (pos 10000000) (pos 5000000)
        empty).1).1

redis_tests :
    ((check_login_limit reference same "ann" "ip" (pos 2) (pos 9) (pos 7000000) two_failures).0
      ≡ ok (pos 8000000))
    × ((check_login_limit reference same "bob" "ip" (pos 2) (pos 9) (pos 7000000) two_failures).0
        ≡ ok (pos 0))
    × ((check_login_limit reference same "ann" "ip"
          (pos 2)
          (pos 9)
          (pos 7000000)
          (reset_login_account reference same "ann" (pos 7000000) two_failures).1).0
        ≡ ok (pos 0))
    × ((is_access_token_revoked reference same "j"
          (pos 2)
          (revoke_access_token reference same "j" (pos 3000000) (pos 1) empty).1).0
        ≡ ok true)
unfolding redis
redis_tests = (refl, refl, refl, refl)

check_login_limit_waits_example :
    (n : ℤ) × (m : ℤ) × (counted reference same
        (account_failure_key same "ann")
        (pos 7000000)
        two_failures
      ≡ ok n)
    × (counted reference same (ip_failure_key same "ip") (pos 7000000) two_failures ≡ ok m)
    × ((pos 0 <ℤ pos 8000000) ↔ ((pos 2 ≤ℤ n) ⊎ (pos 9 ≤ℤ m)))
unfolding redis
check_login_limit_waits_example =
    check_login_limit_waits reference same "ann" "ip" (pos 2) (pos 9) (pos 7000000) two_failures
      (pos 8000000) refl
