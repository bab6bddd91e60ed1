-- ===== src/AuthState/Redis/Limiting.antt =====
-- The limit of failed logins in Redis: when a login has to wait.
use go_user_system.Common.{String, ◌≡◌, sym, ◌∙◌, ap, arith, ◌↔◌, ◌⊎◌, inl, inr}
use go_user_system.Common.Int.{ℤ, pos, ◌<ℤ◌, ◌≤ℤ◌}
use go_user_system.Common.Time.{Time, Duration}
use go_user_system.Result.{Result, ok, Result-cases}
use go_user_system.AuthState.{account_failure_key, ip_failure_key, max_duration}
use go_user_system.AuthState.Redis.{
  Redis, unexpired_entry, text_of, counter_value, retry, check_login_limit,
}

retry-positive :
    (count limit : ℤ) (ttl : Duration) → (pos 0 <ℤ retry count limit ttl) ↔ (limit ≤ℤ count)
retry-positive count limit ttl = ground arith

longer_of : (a b : Duration) → (pos 0 <ℤ max_duration a b) ↔ ((pos 0 <ℤ a) ⊎ (pos 0 <ℤ b))
longer_of a b = ground arith

waits :
    (n m limit limit' : ℤ) (ttl ttl' : Duration)
    → (pos 0 <ℤ max_duration (retry n limit ttl) (retry m limit' ttl'))
      ↔ ((limit ≤ℤ n) ⊎ (limit' ≤ℤ m))
waits n m limit limit' ttl ttl' = ground (
  arith,
  longer_of (retry n limit ttl) (retry m limit' ttl'),
  retry-positive n limit ttl,
  retry-positive m limit' ttl',
)

module _ (redis : Redis) (digest : String → String) where
  open redis use {State, at_key}

  -- The count of a key at a time.
  abbrev pub counted : String → Time → State → Result ℤ
  counted key now s = counter_value (text_of (unexpired_entry (at_key key s) now))

  -- A check that succeeds has read two whole numbers, and makes the login wait exactly if the count
  -- of the account or that of the address has reached its limit, whatever lifetime Redis reports
  -- for the two keys.
  pub check_login_limit_waits :
      (account ip : String) (account_limit ip_limit : ℤ) (now : Time) (s : State) (wait : Duration)
      → (check_login_limit redis digest account ip account_limit ip_limit now s).0 ≡ ok wait
      → (n : ℤ) × (m : ℤ) × (counted (account_failure_key digest account) now s ≡ ok n)
        × (counted (ip_failure_key digest ip) now s ≡ ok m)
        × ((pos 0 <ℤ wait) ↔ ((account_limit ≤ℤ n) ⊎ (ip_limit ≤ℤ m)))
  unfolding check_login_limit
  check_login_limit_waits account ip account_limit ip_limit now s wait h =
      let k = account_failure_key digest account in
      let j = ip_failure_key digest ip in
      elim (Result-cases (redis.read_two k j now s).0) [
        | inr (e, lost) ↦ absurd (let d = rw lost at h in cc)
        | inl (c, told) ↦
            let read = redis.read_two_lem k j c now s told in
            elim (Result-cases (counter_value c.account_value)) [
              | inr (e, bad) ↦ absurd (let d = rw (told, bad) at h in cc)
              | inl (n, good) ↦ elim (Result-cases (counter_value c.ip_value)) [
                | inr (e, bad) ↦ absurd (let d = rw (told, good, bad) at h in cc)
                | inl (m, fine) ↦
                    let this : wait
                        ≡ max_duration (retry n account_limit c.account_ttl)
                            (retry m ip_limit c.ip_ttl) =
                      let d = rw (told, good, fine) at h in cc in
                    (
                      n,
                      m,
                      ap (λ x. counter_value x.account_value) (sym read) ∙ good,
                      ap (λ x. counter_value x.ip_value) (sym read) ∙ fine,
                      rw this (waits n m account_limit ip_limit c.account_ttl c.ip_ttl),
                    )
              ]
            ]
      ]
