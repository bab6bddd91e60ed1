-- ===== src/AuthState/Counters.antt =====
-- One failed-login counter of the memory store: what is visible of it at a time.
use Prim.Native.String.{◌++◌}
use text.Mathlib.TextLemmas.{append_cancel_left, append_assoc, append_inj}
use go_user_system.Common.{
  String, Option, none, some, ◌≡◌, ◌≢◌, refl, sym, ◌∙◌, if◌then◌else◌, str_eq, eq_iff, arith,
}
use go_user_system.Common.Int.{ℤ, pos, ltb_ℤ, ◌≤ℤ◌, increment}
use go_user_system.Common.Time.{Time, Duration, after, add, sub}
use go_user_system.Common.Dict.{lookup, lookup-insert, lookup-erase}
use go_user_system.AuthState.{
  MemoryCounter, MemoryStore, account_failure_key, ip_failure_key, increment_counter,
  counter_retry_after,
}

-- A counter is seen until it expires.
abbrev pub unexpired : Option MemoryCounter → Time → Option MemoryCounter
unexpired none now = none
unexpired (some c) now = if after c.expires_at now then some c else none

abbrev pub live : String → Time → MemoryStore → Option MemoryCounter
live key now s = unexpired (lookup key s.counters) now

-- One more failure at a time, with a new window if no counter is seen.
abbrev pub bump : Option MemoryCounter → Time → Duration → MemoryCounter
bump none now window = record { count = increment (pos 0); expires_at = add now window }
bump (some c) now window = record { count = increment c.count; expires_at = c.expires_at }

-- How long a counter that is seen still blocks.
abbrev pub retry_of : Option MemoryCounter → ℤ → Time → Duration
retry_of none limit now = pos 0
retry_of (some c) limit now = if ltb_ℤ c.count limit then pos 0 else sub c.expires_at now

pub increment_counter_result :
    (key : String) (now : Time) (window : Duration) (s : MemoryStore)
    → (increment_counter key now window s).0 ≡ bump (live key now s) now window
unfolding increment_counter
increment_counter_result key now window s = ground arith

pub lookup-increment_counter :
    (key other : String) (now : Time) (window : Duration) (s : MemoryStore)
    → lookup other (increment_counter key now window s).1.counters ≡ (
        if str_eq key other
        then some (bump (live key now s) now window)
        else lookup other s.counters)
unfolding increment_counter
lookup-increment_counter key other now window s =
    rw (lookup-insert other key _ s.counters) (ground arith)

pub live-increment_counter :
    (key other : String) (now later : Time) (window : Duration) (s : MemoryStore)
    → live other later (increment_counter key now window s).1 ≡ (
        if str_eq key other
        then unexpired (some (bump (live key now s) now window)) later
        else live other later s)
live-increment_counter key other now later window s =
    rw (lookup-increment_counter key other now window s) (ground arith)

pub counter_retry_after_result :
    (key : String) (limit : ℤ) (now : Time) (s : MemoryStore)
    → (counter_retry_after key limit now s).0 ≡ retry_of (live key now s) limit now
unfolding counter_retry_after
counter_retry_after_result key limit now s = ground arith

-- Dropping an expired counter is not seen by any later question.
pub live-counter_retry_after :
    (key other : String) (limit : ℤ) (now later : Time) (s : MemoryStore)
    → now ≤ℤ later
    → live other later (counter_retry_after key limit now s).1 ≡ live other later s
unfolding counter_retry_after
live-counter_retry_after key other limit now later s h =
    ground (arith, lookup-erase other key s.counters, eq_iff key other)

module _ (digest : String → String) where
  -- An account and an address never share a counter, whatever the digest is.
  pub account-ne-ip :
      (account ip : String) → account_failure_key digest account ≢ ip_failure_key digest ip
  unfolding account_failure_key ip_failure_key
  account-ne-ip account ip e =
      let rest : ("login:account:" ++ digest account) ≡ "login:ip:" ++ digest ip =
        append_cancel_left _ _ _ e in
      let split : ("login:ac" ++ ("count:" ++ digest account)) ≡ "login:ip" ++ (":" ++ digest ip) =
        sym (append_assoc "login:ac" "count:" (digest account))
        ∙ rest
        ∙ append_assoc "login:ip" ":" (digest ip) in
      let clash : ◌≡◌ {A = String} "login:ac" "login:ip" = (append_inj split refl).0 in
      ground (arith, eq_iff "login:ac" "login:ip")
