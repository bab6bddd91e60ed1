-- ===== src/AuthState/Tally.antt =====
-- The counter of one account while a window of failed logins is open: how many failures it holds
-- that were recorded since a time.
use go_user_system.Common.{
  String, ℕ, zero, suc, ◌≤◌, Option, none, some, ◌≡◌, refl, ap, ◌∙◌, arith, eq_iff, ◌⊎◌, inl, inr,
}
use go_user_system.Common.Int.{ℤ, pos, ◌≤ℤ◌, ◌<ℤ◌}
use go_user_system.Common.Time.{Time, Duration, add, sub, sub-pos_iff}
use go_user_system.Common.Dict.{lookup, lookup-erase}
use go_user_system.AuthState.{
  MemoryCounter, MemoryStore, account_failure_key, ip_failure_key, counter_retry_after,
  check_login_limit, record_login_failure,
}
use go_user_system.AuthState.Counters.{live, retry_of, unexpired}
use go_user_system.AuthState.Limits.{ip_seen, check_login_limit_lem, record_login_failure_lem}
use go_user_system.AuthState.Lockout.{count_cap, counter_at, bump_seen, bump_new, max_duration-le}

-- A check leaves a counter, or drops it when it is not seen.
lookup-counter_retry_after :
    (key other : String) (limit : ℤ) (now : Time) (s : MemoryStore)
    → (lookup other (counter_retry_after key limit now s).1.counters ≡ lookup other s.counters)
      ⊎ ((lookup other (counter_retry_after key limit now s).1.counters ≡ none)
          × (live other now s ≡ none))
unfolding counter_retry_after
lookup-counter_retry_after key other limit now s =
    ground (arith, lookup-erase other key s.counters, eq_iff key other)

module _ (digest : String → String) (account : String) (start end : Time) where
  abbrev key : String
  key = account_failure_key digest account

  -- No counter is seen from the start on; or one holds this many failures, until the end at least.
  abbrev pub Tally : ℕ → MemoryStore → Type 0
  Tally zero s = (t : Time) → start ≤ℤ t → live key t s ≡ none
  Tally (suc n) s = (e : Time) × (end ≤ℤ e) × (lookup key s.counters ≡ some (counter_at (suc n) e))

  pub unseen-Tally : (s : MemoryStore) → live key start s ≡ none → Tally 0 s
  unseen-Tally s unseen = λ t from. later (lookup key s.counters) t from unseen
    where
      later :
          (o : Option MemoryCounter) (t : Time)
          → start ≤ℤ t
          → unexpired o start ≡ none
          → unexpired o t ≡ none
      later none t from h = refl
      later (some c) t from h = ground arith

  after-Tally :
      (n : ℕ) (now : Time) (s t : MemoryStore)
      → now <ℤ end
      → (lookup key t.counters ≡ lookup key s.counters)
        ⊎ ((lookup key t.counters ≡ none) × (live key now s ≡ none))
      → Tally n s
      → Tally n t
  after-Tally zero now s t before (inl same) h = λ later from. rw same (h later from)
  after-Tally zero now s t before (inr (gone, unseen)) h = λ later from. rw gone refl
  after-Tally (suc n) now s t before (inl same) (e, last, held) = (e, last, same ∙ held)
  after-Tally (suc n) now s t before (inr (gone, unseen)) (e, last, held) =
      absurd (let k = rw held at unseen in ground arith)

  -- A change that leaves the counter leaves the tally.
  pub moved-Tally :
      (n : ℕ) (s t : MemoryStore)
      → lookup key t.counters ≡ lookup key s.counters
      → Tally n s
      → Tally n t
  moved-Tally zero s t same h = λ later from. rw same (h later from)
  moved-Tally (suc n) s t same (e, last, held) = (e, last, same ∙ held)

  pub check_login_limit-Tally :
      (n : ℕ) (ip : String) (account_limit ip_limit : ℤ) (now : Time) (s : MemoryStore)
      → now <ℤ end
      → Tally n s
      → Tally n (check_login_limit digest account ip account_limit ip_limit now s).1
  unfolding check_login_limit
  check_login_limit-Tally n ip account_limit ip_limit now s before h =
      let s1 = (counter_retry_after key account_limit now s).1 in
      after-Tally n now s1 _ before
        (lookup-counter_retry_after (ip_failure_key digest ip) key ip_limit now s1)
        (after-Tally n now s s1 before (lookup-counter_retry_after key key account_limit now s) h)

  -- With as many failures as the limit, a check does not answer zero.
  pub check_login_limit-blocks :
      (n : ℕ) (ip : String) (account_limit ip_limit : ℤ) (now : Time) (s : MemoryStore)
      → now <ℤ end
      → Tally (suc n) s
      → account_limit ≤ℤ pos (suc n)
      → pos 0 <ℤ (check_login_limit digest account ip account_limit ip_limit now s).0
  check_login_limit-blocks n ip account_limit ip_limit now s before (e, last, held) full =
      let seen : live key now s ≡ some (counter_at (suc n) e) = rw held (ground arith) in
      let positive = (sub-pos_iff e now).1 (ground arith) in
      let wait = (check_login_limit_lem digest account ip account_limit ip_limit now s).0 in
      rw (wait, seen)
        (ground
          (arith, max_duration-le (sub e now) (retry_of (ip_seen digest ip now s) ip_limit now)))

  pub record_login_failure-Tally :
      (n : ℕ) (ip : String) (account_limit ip_limit : ℤ) (window : Duration) (now : Time)
      (s : MemoryStore)
      → start ≤ℤ now
      → now <ℤ end
      → end ≤ℤ add now window
      → suc n ≤ count_cap
      → Tally n s
      → Tally (suc n) (record_login_failure digest account ip account_limit ip_limit window now s).1
  record_login_failure-Tally zero ip account_limit ip_limit window now s from before long fits h =
      let step = record_login_failure_lem digest account ip account_limit ip_limit window now s in
      (add now window, long, step.1 ∙ ap some (bump_new _ now window (h now from)))
  record_login_failure-Tally (suc n) ip account_limit ip_limit window now s from before long fits
        (e, last, held) =
      let step = record_login_failure_lem digest account ip account_limit ip_limit window now s in
      (e, last, step.1 ∙ ap some (bump_seen _ (suc n) e now window held (ground arith) fits))
