-- ===== src/AuthState/Lockout.antt =====
-- A run of failed logins against one account: how many it takes until the memory store blocks the
-- account, and for how long.
use go_user_system.Common.{
  String, ℕ, suc, ◌+◌, ◌≤◌, Option, none, some, ◌≡◌, ap, ◌∙◌, arith, List, [], ◌∷◌, length, All,
}
use go_user_system.Common.Int.{ℤ, pos, ◌≤ℤ◌, ◌<ℤ◌, ◌+ℤ◌, increment}
use go_user_system.Common.Time.{Time, Duration, add, sub, sub-pos_iff}
use go_user_system.Common.Dict.{lookup}
use go_user_system.AuthState.{
  MemoryCounter, MemoryStore, max_duration, account_failure_key, check_login_limit,
  record_login_failure,
}
use go_user_system.AuthState.Counters.{unexpired, bump, retry_of}
use go_user_system.AuthState.Limits.{
  account_seen, ip_seen, check_login_limit_lem, record_login_failure_lem,
}

-- The largest count of an int64.
abbrev pub count_cap : ℕ
count_cap = 9223372036854775807

increment-pos : (n : ℕ) → suc n ≤ count_cap → increment (pos n) ≡ pos (suc n)
unfolding increment ◌+ℤ◌
increment-pos n h = ground arith

abbrev pub counter_at : ℕ → Time → MemoryCounter
counter_at n expires_at = record { count = pos n; expires_at = expires_at }

pub bump_seen :
    (o : Option MemoryCounter) (n : ℕ) (e now : Time) (window : Duration)
    → o ≡ some (counter_at n e)
    → now <ℤ e
    → suc n ≤ count_cap
    → bump (unexpired o now) now window ≡ counter_at (suc n) e
bump_seen o n e now window h before fits = rw h (ground (arith, increment-pos n fits))

pub bump_new :
    (o : Option MemoryCounter) (now : Time) (window : Duration)
    → o ≡ none
    → bump o now window ≡ counter_at 1 (add now window)
bump_new o now window h = rw h (ground (arith, increment-pos 0 (omega arith)))

pub max_duration-le : (a b : Duration) → a ≤ℤ max_duration a b
max_duration-le a b = ground arith

module _ (digest : String → String) (account_limit ip_limit : ℤ) (window : Duration) where
  -- Failed logins against one account, each from an address at a time.
  unfoldable pub record_failures : String → List (String × Time) → MemoryStore → MemoryStore
  record_failures account [] s = s
  record_failures account ((ip, now) ∷ more) s =
      record_failures account more
        (record_login_failure digest account ip account_limit ip_limit window now s).1

  lookup-record_failures :
      (account : String) (failures : List (String × Time)) (n : ℕ) (e : Time) (s : MemoryStore)
      → lookup (account_failure_key digest account) s.counters ≡ some (counter_at n e)
      → All (λ f. f.1 <ℤ e) failures
      → n + length failures ≤ count_cap
      → lookup (account_failure_key digest account) (record_failures account failures s).counters
        ≡ some (counter_at (n + length failures) e)
  unfolding record_failures
  lookup-record_failures account [] n e s h within fits =
      h ∙ ap (λ m. some (counter_at m e)) (omega arith)
  lookup-record_failures account ((ip, now) ∷ more) n e s h within fits =
      let step = record_login_failure_lem digest account ip account_limit ip_limit window now s in
      let counted = step.1 ∙ ap some (bump_seen _ n e now window h within.0 (omega arith)) in
      let shift : n + length ((ip, now) ∷ more) ≡ suc n + length more = omega arith in
      rw shift (lookup-record_failures account more (suc n) e _ counted within.1 (omega arith))

  -- Let no counter of the account be seen at the first of a run of failures, and let the run stay
  -- inside the window that begins there. While that window lasts, a check from any address waits
  -- at least until its end once the run has as many failures as the account's limit; with fewer
  -- failures it waits only as long as the counter of the address asks for.
  pub lockout :
      (account ip first_ip : String) (start : Time) (more : List (String × Time)) (now : Time)
      (s : MemoryStore)
      → account_seen digest account start s ≡ none
      → All (λ f. f.1 <ℤ add start window) more
      → suc (length more) ≤ count_cap
      → now <ℤ add start window
      → let t = record_failures account ((first_ip, start) ∷ more) s in
        let retry = (check_login_limit digest account ip account_limit ip_limit now t).0 in
        (account_limit ≤ℤ pos (suc (length more))
          → (sub (add start window) now ≤ℤ retry) × (pos 0 <ℤ retry))
        × (pos (suc (length more)) <ℤ account_limit
            → retry ≡ max_duration (pos 0) (retry_of (ip_seen digest ip now t) ip_limit now))
  unfolding record_failures
  lockout account ip first_ip start more now s unseen within fits before =
      let k = account_failure_key digest account in
      let e : Time = add start window in
      let n : ℕ = suc (length more) in
      let t = record_failures account ((first_ip, start) ∷ more) s in
      let first_step =
        record_login_failure_lem digest account first_ip account_limit ip_limit window start s in
      let counted : lookup k t.counters ≡ some (counter_at n e) =
        lookup-record_failures account more 1 e _
          (first_step.1 ∙ ap some (bump_new _ start window unseen)) within (omega arith)
        ∙ ap (λ m. some (counter_at m e)) (omega arith) in
      let seen : account_seen digest account now t ≡ some (counter_at n e) =
        rw counted (ground arith) in
      let answer =
        (check_login_limit_lem digest account ip account_limit ip_limit now t).0
        ∙ ap
            (λ o.
              max_duration (retry_of o account_limit now)
                (retry_of (ip_seen digest ip now t) ip_limit now))
            seen in
      let positive = (sub-pos_iff e now).1 before in
      (
        λ reached. rw answer (
            ground (
              arith,
              max_duration-le (sub e now) (retry_of (ip_seen digest ip now t) ip_limit now),
            )),
        λ fewer. rw answer (ground arith),
      )
