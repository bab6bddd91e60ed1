-- ===== src/AuthState/Tests.antt =====
-- Runs of the memory store, and instances of its theorems.
use go_user_system.Common.{String, true, false, ◌≡◌, refl, [], ◌∷◌}
use go_user_system.Common.Int.{pos, ◌+ℤ◌, ◌-ℤ◌, increment}
use go_user_system.Common.Time.{sub}
use go_user_system.Common.Dict.{lookup, insert, erase}
use go_user_system.AuthState.{
  MemoryStore, new_memory_store, access_revocation_key, account_failure_key, ip_failure_key,
  revoke_access_token, is_access_token_revoked, check_login_limit, record_login_failure,
  reset_login_account, increment_counter, counter_retry_after,
}
use go_user_system.AuthState.Revocation.{answer}
use go_user_system.AuthState.Lockout.{record_failures}

-- A digest that keeps texts apart.
abbrev plain : String → String
plain s = s

store : Unit {0}
unfolding access_revocation_key account_failure_key ip_failure_key revoke_access_token
    is_access_token_revoked check_login_limit record_login_failure reset_login_account
    increment_counter counter_retry_after lookup insert erase ◌+ℤ◌ ◌-ℤ◌ sub increment
    new_memory_store record_failures
store = tt

abbrev revoked_store : MemoryStore
revoked_store = revoke_access_token plain "j1" (pos 50) (pos 100) new_memory_store

revocation_tests :
    (answer plain "j1" (pos 149) revoked_store ≡ true)
    × (answer plain "j1" (pos 150) revoked_store ≡ false)
    × (answer plain "j2" (pos 120) revoked_store ≡ false)
unfolding store
revocation_tests = (refl, refl, refl)

abbrev three_failures : MemoryStore
three_failures =
    record_failures plain (pos 3) (pos 9) (pos 60) "ann"
      (("ip1", pos 10) ∷ ("ip2", pos 20) ∷ ("ip1", pos 30) ∷ []) new_memory_store

limit_tests :
    ((check_login_limit plain "ann" "ip9" (pos 3) (pos 9) (pos 40) three_failures).0 ≡ pos 30)
    × ((check_login_limit plain "bob" "ip1" (pos 3) (pos 9) (pos 40) three_failures).0 ≡ pos 0)
    × ((check_login_limit plain "ann" "ip9" (pos 3) (pos 9) (pos 70) three_failures).0 ≡ pos 0)
unfolding store
limit_tests = (refl, refl, refl)
