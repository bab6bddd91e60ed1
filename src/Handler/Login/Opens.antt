-- ===== src/Handler/Login/Opens.antt =====
-- `LoginHandler` and the end of a lockout.
use go_user_system.Common.{
  String, Option, none, some, true, false, ◌≡◌, refl, arith, if◌then◌else◌, inl, inr,
}
use go_user_system.Common.Int.{ℤ, pos, ◌≤ℤ◌, leb_ℤ, ltb_ℤ}
use go_user_system.Common.Text.{trim_space}
use go_user_system.Common.Time.{Time}
use go_user_system.Common.Dict.{lookup}
use go_user_system.AuthState.{
  MemoryCounter, MemoryStore, account_failure_key, ip_failure_key, max_duration,
}
use go_user_system.AuthState.Counters.{unexpired, retry_of}
use go_user_system.AuthState.Limits.{account_seen, ip_seen, check_login_limit_lem}
use go_user_system.Service.Access.{is_bad_limit, normalize_account}
use go_user_system.Handler.{UserHandler}
use go_user_system.Handler.Login.{LoginRequest, LoginMoment, login_handler, login_ip, try_login}
use go_user_system.Handler.Login.Guesses.{in_memory, check_cases, checked}

abbrev expiry : Option MemoryCounter → Time
expiry none = pos 0
expiry (some c) = c.expires_at

expired_unseen : (o : Option MemoryCounter) (now : Time) → expiry o ≤ℤ now → unexpired o now ≡ none
expired_unseen none now h = refl
expired_unseen (some c) now h = ground arith

abbrev later_of : Time → Time → Time
later_of a b = if ltb_ℤ a b then b else a

later_of-le : (a b : Time) → (a ≤ℤ later_of a b) × (b ≤ℤ later_of a b)
later_of-le a b = (ground arith, ground arith)

at_rest :
    (limit limit' : ℤ) (now : Time)
    → leb_ℤ (max_duration (retry_of none limit now) (retry_of none limit' now)) (pos 0) ≡ true
at_rest limit limit' now = refl

module _ (digest : String → String) (h : UserHandler) where
  -- No lockout is for ever: for every state of the memory store there is a time from which on a
  -- request has its password compared, if the store has not changed by then, whatever the account
  -- and the address of the request are locked for.
  pub lockout_ends :
      (req : LoginRequest) (client_ip : String) (k : MemoryStore)
      → is_bad_limit h.limit ≡ false
      → (e : Time) × ((at : LoginMoment) (s : h.db.State)
          → e ≤ℤ at.checked_at
          → login_handler (in_memory digest h) at client_ip (some req) (s, k)
            ≡ try_login
                (in_memory digest h)
                at
                req
                (login_ip client_ip)
                (s, checked digest h at req (login_ip client_ip) k))
  unfolding login_handler
  lockout_ends req client_ip k good =
      let account = normalize_account h.lower req.username in
      let ip = trim_space (login_ip client_ip) in
      let o = lookup (account_failure_key digest account) k.counters in
      let p = lookup (ip_failure_key digest ip) k.counters in
      (
        later_of (expiry o) (expiry p),
        λ at s after.
            let now = at.checked_at in
            let (first, second) = later_of-le (expiry o) (expiry p) in
            let no_account : account_seen digest account now k ≡ none =
              expired_unseen o now (ground arith) in
            let no_ip : ip_seen digest ip now k ≡ none = expired_unseen p now (ground arith) in
            let wait =
              (check_login_limit_lem digest account ip h.limit.account_limit h.limit.ip_limit now
                k).0 in
            elim (check_cases digest h req.username (login_ip client_ip) now k) [
              | inl (bad, kept) ↦ absurd (cc)
              | inr (told, moved) ↦ rw (told, wait, no_account, no_ip) refl
            ],
      )
