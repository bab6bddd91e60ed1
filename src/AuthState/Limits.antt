-- ===== src/AuthState/Limits.antt =====
-- The login limiter of the memory store: what its three operations answer, and what they change,
-- in terms of the counters that are seen at a time.
use go_user_system.Common.{
  String, false, Option, none, some, ◌≡◌, ◌≢◌, refl, sym, ◌∙◌, if◌then◌else◌, str_eq, eq_iff, arith,
}
use mathlib.Core.Path.{ap₂}
use text.Mathlib.TextPositions.{eq_refl}
use go_user_system.Common.Int.{ℤ, pos, leb_ℤ, ◌≤ℤ◌}
use go_user_system.Common.Time.{Time, Duration, sub}
use go_user_system.Common.Dict.{lookup, lookup-erase}
use go_user_system.AuthState.{
  MemoryCounter, MemoryStore, max_duration, account_failure_key, ip_failure_key, increment_counter,
  counter_retry_after, check_login_limit, record_login_failure, reset_login_account,
}
use go_user_system.AuthState.Counters.{
  live, bump, retry_of, increment_counter_result, lookup-increment_counter, live-increment_counter,
  counter_retry_after_result, live-counter_retry_after, account-ne-ip,
}

-- Texts with different values are told apart.
pub str_eq-false : (s t : String) → s ≢ t → str_eq s t ≡ false
str_eq-false s t h = ground (arith, eq_iff s t)

-- The wait as `RecordLoginFailure` computes it.
retry_of-some :
    (c d : MemoryCounter) (limit : ℤ) (now : Time)
    → c ≡ d
    → (if leb_ℤ limit c.count then sub c.expires_at now else pos 0) ≡ retry_of (some d) limit now
retry_of-some c d limit now e = rw e (ground arith)

increment_counter-revoked :
    (key : String) (now : Time) (window : Duration) (s : MemoryStore)
    → (increment_counter key now window s).1.revoked ≡ s.revoked
unfolding increment_counter
increment_counter-revoked key now window s = refl

module _ (digest : String → String) where
  abbrev pub account_seen : String → Time → MemoryStore → Option MemoryCounter
  account_seen account now s = live (account_failure_key digest account) now s

  abbrev pub ip_seen : String → Time → MemoryStore → Option MemoryCounter
  ip_seen ip now s = live (ip_failure_key digest ip) now s

  -- A check answers the longer of the two waits that the counters seen now ask for, and no
  -- question at this time or later is answered differently because of it.
  pub check_login_limit_lem :
      (account ip : String) (account_limit ip_limit : ℤ) (now : Time) (s : MemoryStore)
      → ((check_login_limit digest account ip account_limit ip_limit now s).0
          ≡ max_duration
              (retry_of (account_seen account now s) account_limit now)
              (retry_of (ip_seen ip now s) ip_limit now))
        × ((key : String) (later : Time)
            → now ≤ℤ later
            → live key later (check_login_limit digest account ip account_limit ip_limit now s).1
              ≡ live key later s)
  unfolding check_login_limit
  check_login_limit_lem account ip account_limit ip_limit now s =
      let k = account_failure_key digest account in
      let s1 = (counter_retry_after k account_limit now s).1 in
      let j = ip_failure_key digest ip in
      (
        rw (
          counter_retry_after_result k account_limit now s,
          counter_retry_after_result j ip_limit now s1,
          live-counter_retry_after k j account_limit now now s (omega arith),
        ),
        λ key later h.
            live-counter_retry_after j key ip_limit now later s1 h
            ∙ live-counter_retry_after k key account_limit now later s h,
      )

  -- A recorded failure counts once for the account and once for the address, in the windows seen
  -- now or in new ones; the answer is the longer of the waits that the two new counts ask for; and
  -- no other counter is touched.
  pub record_login_failure_lem :
      (account ip : String) (account_limit ip_limit : ℤ) (window : Duration) (now : Time)
      (s : MemoryStore)
      → let account_counter = bump (account_seen account now s) now window in
        let ip_counter = bump (ip_seen ip now s) now window in
        let (retry, t) =
          record_login_failure digest account ip account_limit ip_limit window now s in
        (retry
          ≡ max_duration
              (retry_of (some account_counter) account_limit now)
              (retry_of (some ip_counter) ip_limit now))
        × (lookup (account_failure_key digest account) t.counters ≡ some account_counter)
        × (lookup (ip_failure_key digest ip) t.counters ≡ some ip_counter)
        × ((key : String)
            → key ≢ account_failure_key digest account
            → key ≢ ip_failure_key digest ip
            → lookup key t.counters ≡ lookup key s.counters)
        × (t.revoked ≡ s.revoked)
  unfolding record_login_failure
  record_login_failure_lem account ip account_limit ip_limit window now s =
      let k = account_failure_key digest account in
      let j = ip_failure_key digest ip in
      let s1 = (increment_counter k now window s).1 in
      let apart : str_eq k j ≡ false = str_eq-false k j (account-ne-ip digest account ip) in
      let apart' : str_eq j k ≡ false =
        str_eq-false j k (λ e. account-ne-ip digest account ip (sym e)) in
      let same_ip : live j now s1 ≡ live j now s =
        live-increment_counter k j now now window s ∙ rw apart in
      let ip_result : (increment_counter j now window s1).0 ≡ bump (live j now s) now window =
        rw (increment_counter_result j now window s1, same_ip) in
      (
        ap₂ max_duration
            (retry_of-some _ _ account_limit now (increment_counter_result k now window s))
            (retry_of-some _ _ ip_limit now ip_result),
        rw (
          lookup-increment_counter j k now window s1,
          apart',
          lookup-increment_counter k k now window s,
          eq_refl,
        ),
        rw (lookup-increment_counter j j now window s1, eq_refl, same_ip),
        λ key ne_account ne_ip. rw (
          lookup-increment_counter j key now window s1,
          str_eq-false j key (λ e. ne_ip (sym e)),
          lookup-increment_counter k key now window s,
          str_eq-false k key (λ e. ne_account (sym e)),
        ),
        increment_counter-revoked j now window s1 ∙ increment_counter-revoked k now window s,
      )

  -- A reset clears the account's counter alone.
  pub reset_login_account_lem :
      (account key : String) (now : Time) (s : MemoryStore)
      → live key now (reset_login_account digest account s)
        ≡ (if str_eq (account_failure_key digest account) key then none else live key now s)
  unfolding reset_login_account
  reset_login_account_lem account key now s =
      rw (lookup-erase key (account_failure_key digest account) s.counters) (ground arith)
