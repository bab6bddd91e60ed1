-- ===== src/AuthState/Redis.antt =====
-- internal/authstate/redis.go: the store of revoked access tokens and of failed logins in Redis.
-- Redis with its client go-redis is a parameter: the calls of a pipeline of the source are one
-- command here, since `TxPipelined` sends them as one transaction.
pub mod Revoking
pub mod Limiting
pub mod Reference
mod Tests
use go_user_system.Common.{
  ◌⊎◌, ℕ, ◌*◌, ◌/◌, String, Bool, true, false, Option, none, some, if◌then◌else◌, str_eq, ◌≡◌, ◌≢◌,
}
use go_user_system.Common.Int.{ℤ, pos, negsuc, ltb_ℤ, leb_ℤ, ◌<ℤ◌, ◌≤ℤ◌}
use go_user_system.Common.Time.{Time, Duration, second, sub, add, after}
use go_user_system.Errors.{Error, wrapped, external}
use go_user_system.Result.{Result, ok, err, Action, pure, raise, lift, ◌>>=◌, ◌>>◌}
use go_user_system.Config.{atoi}
use go_user_system.AuthState.{
  access_revocation_key, account_failure_key, ip_failure_key, max_duration,
}

pub record Entry : Type 0 where
  pub text : String
  pub expires_at : Option Time

-- The answers of the pipeline of a check, and of that of a failure.
pub record Counted : Type 0 where
  pub account_value : Option String
  pub ip_value : Option String
  pub account_ttl : Duration
  pub ip_ttl : Duration

pub record Increments : Type 0 where
  pub account_count : ℤ
  pub ip_count : ℤ
  pub account_ttl : Duration
  pub ip_ttl : Duration

-- A lifetime as go-redis sends it: whole milliseconds, at least one.
abbrev pub millisecond : ℕ
millisecond = 1000000

abbrev pub sent_ttl : Duration → Duration
sent_ttl (pos n) =
    if ltb_ℤ (pos n) (pos millisecond) then pos millisecond else pos (n / millisecond * millisecond)
sent_ttl (negsuc n) = negsuc n

-- An entry that has not expired.
abbrev pub unexpired_entry : Option Entry → Time → Option Entry
unexpired_entry none now = none
unexpired_entry (some e) now = elim e.expires_at [
  | none ↦ some e
  | some t ↦ if after t now then some e else none
]

-- PTTL: milliseconds that are left, or -1 for an entry that does not expire, or -2 for none.
abbrev pub left_until : Time → Time → Duration
left_until t now = elim (sub t now) [
  | pos n ↦ pos (n / millisecond * millisecond)
  | negsuc n ↦ negsuc 1
]

abbrev pub pttl : Option Entry → Time → Duration
pttl none now = negsuc 1
pttl (some e) now = elim e.expires_at [ none ↦ negsuc 0 | some t ↦ left_until t now ]

abbrev pub text_of : Option Entry → Option String
text_of none = none
text_of (some e) = some e.text

-- `at_key` is what the server holds under a key; it may drop an entry once it has expired. A
-- command that fails may have been carried out or not.
pub record Redis : Type 1 where
  pub State : Type 0
  pub at_key : String → State → Option Entry
  pub set : String → String → Duration → Time → Action State (Unit {0})
  pub exists : String → Time → Action State ℤ
  pub read_two : String → String → Time → Action State Counted
  pub count_two : String → String → Duration → Time → Action State Increments
  pub del : String → Time → Action State (Unit {0})
  pub set_lem :
      (key text : String) (ttl : Duration) (now : Time) (s : State)
      → (set key text ttl now s).0 ≡ ok tt
      → at_key key (set key text ttl now s).1
        ≡ some (record { text = text; expires_at = some (add now (sent_ttl ttl)) })
  pub set_keeps :
      (key text other : String) (ttl : Duration) (now : Time) (s : State)
      → (at_key other (set key text ttl now s).1 ≡ at_key other s)
        ⊎ ((other ≡ key)
            × (at_key other (set key text ttl now s).1
                ≡ some (record { text = text; expires_at = some (add now (sent_ttl ttl)) })))
  pub exists_lem :
      (key : String) (n : ℤ) (now : Time) (s : State)
      → (exists key now s).0 ≡ ok n
      → n ≡ elim (unexpired_entry (at_key key s) now) [ none ↦ pos 0 | some e ↦ pos 1 ]
  pub exists_keeps :
      (key other : String) (now : Time) (s : State) (e : Entry)
      → unexpired_entry (at_key other s) now ≡ some e
      → at_key other (exists key now s).1 ≡ at_key other s
  pub read_two_lem :
      (key key' : String) (c : Counted) (now : Time) (s : State)
      → (read_two key key' now s).0 ≡ ok c
      → c ≡ record {
        account_value = text_of (unexpired_entry (at_key key s) now);
        ip_value = text_of (unexpired_entry (at_key key' s) now);
        account_ttl = pttl (unexpired_entry (at_key key s) now) now;
        ip_ttl = pttl (unexpired_entry (at_key key' s) now) now;
      }
  pub read_two_keeps :
      (key key' other : String) (now : Time) (s : State) (e : Entry)
      → unexpired_entry (at_key other s) now ≡ some e
      → at_key other (read_two key key' now s).1 ≡ at_key other s
  pub count_two_keeps :
      (key key' other : String) (window : Duration) (now : Time) (s : State) (e : Entry)
      → other ≢ key
      → other ≢ key'
      → unexpired_entry (at_key other s) now ≡ some e
      → at_key other (count_two key key' window now s).1 ≡ at_key other s
  pub del_keeps :
      (key other : String) (now : Time) (s : State) (e : Entry)
      → other ≢ key
      → unexpired_entry (at_key other s) now ≡ some e
      → at_key other (del key now s).1 ≡ at_key other s

-- `counterValue`
abbrev pub parsed : Option ℤ → Result ℤ
parsed none = err (wrapped "parse login counter" (external "strconv.ParseInt"))
parsed (some n) = ok n

abbrev pub counter_value : Option String → Result ℤ
counter_value none = ok (pos 0)
counter_value (some text) = parsed (atoi text)

abbrev pub positive_ttl : Duration → Duration
positive_ttl ttl = if ltb_ℤ (pos 0) ttl then ttl else second

abbrev pub retry : ℤ → ℤ → Duration → Duration
retry count limit ttl = if leb_ℤ limit count then positive_ttl ttl else pos 0

module _ (redis : Redis) (digest : String → String) where
  open redis use {State}

  unfoldable pub revoke_access_token : String → Duration → Time → Action State (Unit {0})
  revoke_access_token jti ttl now s =
      if leb_ℤ ttl (pos 0)
      then (ok tt, s)
      else redis.set (access_revocation_key digest jti) "1" ttl now s

  unfoldable pub is_access_token_revoked : String → Time → Action State Bool
  is_access_token_revoked jti now = do
    count ← redis.exists (access_revocation_key digest jti) now
    pure (ltb_ℤ (pos 0) count)

  unfoldable pub check_login_limit : String → String → ℤ → ℤ → Time → Action State Duration
  check_login_limit account ip account_limit ip_limit now = do
    c ← redis.read_two (account_failure_key digest account) (ip_failure_key digest ip) now
    account_count ← lift (counter_value c.account_value)
    ip_count ← lift (counter_value c.ip_value)
    pure (
        max_duration (retry account_count account_limit c.account_ttl)
          (retry ip_count ip_limit c.ip_ttl))

  unfoldable pub record_login_failure :
      String → String → ℤ → ℤ → Duration → Time → Action State Duration
  record_login_failure account ip account_limit ip_limit window now = do
    c ← redis.count_two (account_failure_key digest account) (ip_failure_key digest ip) window now
    pure (
        max_duration (retry c.account_count account_limit c.account_ttl)
          (retry c.ip_count ip_limit c.ip_ttl))

  unfoldable pub reset_login_account : String → Time → Action State (Unit {0})
  reset_login_account account now = redis.del (account_failure_key digest account) now
