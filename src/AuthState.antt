-- ===== src/AuthState.antt =====
-- internal/authstate/store.go and internal/authstate/memory.go: the store of revoked access tokens
-- and of failed logins that lives in the process. Each method holds the mutex from its first line
-- to its last, so a method is one step; the reading of the clock is an argument.
pub mod Revocation
pub mod Counters
pub mod Limits
pub mod Lockout
pub mod Tally
pub mod Runs
pub mod Interface
pub mod Redis
mod Tests
use Prim.Native.String.{◌++◌}
use go_user_system.Common.{String, Bool, true, false, Option, none, some, if◌then◌else◌, not, []}
use go_user_system.Common.Int.{ℤ, pos, ltb_ℤ, leb_ℤ, increment}
use go_user_system.Common.Time.{Time, Duration, after, add, sub}
use go_user_system.Common.Dict.{Dict, lookup, insert, erase}

pub record MemoryCounter : Type 0 where
  pub count : ℤ
  pub expires_at : Time

pub record MemoryStore : Type 0 where
  pub revoked : Dict Time
  pub counters : Dict MemoryCounter

unfoldable pub new_memory_store : MemoryStore
new_memory_store = record { revoked = []; counters = [] }

abbrev key_prefix : String
key_prefix = "go-user-system:auth:"

abbrev pub max_duration : Duration → Duration → Duration
max_duration first second = if ltb_ℤ second first then first else second

unfoldable pub increment_counter :
    String → Time → Duration → MemoryStore → MemoryCounter × MemoryStore
increment_counter key now window s =
    let fresh : MemoryCounter = record { count = pos 0; expires_at = add now window } in
    let counter : MemoryCounter = elim (lookup key s.counters) [
      | none ↦ fresh
      | some c ↦ if not (after c.expires_at now) then fresh else c
    ] in
    let counted : MemoryCounter = record counter { count = increment counter.count } in
    (counted, record s { counters = insert key counted s.counters })

unfoldable pub counter_retry_after : String → ℤ → Time → MemoryStore → Duration × MemoryStore
counter_retry_after key limit now s = elim (lookup key s.counters) [
  | none ↦ (pos 0, s)
  | some c ↦
      if not (after c.expires_at now)
      then (pos 0, record s { counters = erase key s.counters })
      else if ltb_ℤ c.count limit
      then (pos 0, s)
      else (sub c.expires_at now, s)
]

-- `digest` is the SHA-256 sum in hexadecimal digits.
module _ (digest : String → String) where
  unfoldable pub access_revocation_key : String → String
  access_revocation_key jti = key_prefix ++ ("access:revoked:" ++ digest jti)

  unfoldable pub account_failure_key : String → String
  account_failure_key account = key_prefix ++ ("login:account:" ++ digest account)

  unfoldable pub ip_failure_key : String → String
  ip_failure_key ip = key_prefix ++ ("login:ip:" ++ digest ip)

  unfoldable pub revoke_access_token : String → Duration → Time → MemoryStore → MemoryStore
  revoke_access_token jti ttl now s =
      if leb_ℤ ttl (pos 0)
      then s
      else record s { revoked = insert (access_revocation_key jti) (add now ttl) s.revoked }

  unfoldable pub is_access_token_revoked : String → Time → MemoryStore → Bool × MemoryStore
  is_access_token_revoked jti now s =
      let key = access_revocation_key jti in
      elim (lookup key s.revoked) [
        | none ↦ (false, s)
        | some expires_at ↦
            if not (after expires_at now)
            then (false, record s { revoked = erase key s.revoked })
            else (true, s)
      ]

  unfoldable pub check_login_limit :
      String → String → ℤ → ℤ → Time → MemoryStore → Duration × MemoryStore
  check_login_limit account ip account_limit ip_limit now s =
      let (account_retry, s1) =
        counter_retry_after (account_failure_key account) account_limit now s in
      let (ip_retry, s2) = counter_retry_after (ip_failure_key ip) ip_limit now s1 in
      (max_duration account_retry ip_retry, s2)

  unfoldable pub record_login_failure :
      String → String → ℤ → ℤ → Duration → Time → MemoryStore → Duration × MemoryStore
  record_login_failure account ip account_limit ip_limit window now s =
      let (account_counter, s1) = increment_counter (account_failure_key account) now window s in
      let (ip_counter, s2) = increment_counter (ip_failure_key ip) now window s1 in
      let account_retry : Duration =
        if leb_ℤ account_limit account_counter.count
        then sub account_counter.expires_at now
        else pos 0 in
      let ip_retry : Duration =
        if leb_ℤ ip_limit ip_counter.count then sub ip_counter.expires_at now else pos 0 in
      (max_duration account_retry ip_retry, s2)

  unfoldable pub reset_login_account : String → MemoryStore → MemoryStore
  reset_login_account account s = record s {
    counters = erase (account_failure_key account) s.counters;
  }
