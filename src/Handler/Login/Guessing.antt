-- ===== src/Handler/Login/Guessing.antt =====
-- Requests to `LoginHandler` against one account: how many passwords can be tried while the window
-- of the limit is open.
use go_user_system.Common.{String, ℕ, zero, suc, ◌≤◌, false, ◌≡◌, arith, Bool-cases, inl, inr}
use go_user_system.Common.Int.{pos, ◌≤ℤ◌, ◌<ℤ◌, leb_ℤ, ltb_ℤ, ltb_ℤ→lt, ltb_ℤ→le, +ℤ_parts}
use go_user_system.Common.Text.{trim_space}
use go_user_system.Common.Time.{Time, add}
use go_user_system.AuthState.{MemoryStore, check_login_limit}
use go_user_system.AuthState.Lockout.{count_cap}
use go_user_system.AuthState.Tally.{
  Tally, check_login_limit-Tally, check_login_limit-blocks, record_login_failure-Tally,
}
use go_user_system.Service.Access.{is_bad_limit, normalize_account}
use go_user_system.Handler.{UserHandler}
use go_user_system.Model.{User}
use go_user_system.Result.{Result}
use go_user_system.AuthState.Interface.{memory_store}
use go_user_system.Service.Access.{check_login_allowed}
use go_user_system.Service.User.{login}
use go_user_system.Common.{true}
use go_user_system.Common.Time.{Duration}
use go_user_system.Handler.Login.{LoginRequest, LoginMoment, login_ip, passes_limit}
use go_user_system.Handler.Login.Guesses.{check_cases, record_cases, recorded, checked}

pub record LoginCall : Type 0 where
  pub at : LoginMoment
  pub client_ip : String
  pub request : LoginRequest

module _ (digest : String → String) (h : UserHandler) where
  abbrev pub Both : Type 0
  Both = h.db.State × MemoryStore

  abbrev pub check_of : LoginCall → MemoryStore → Result Duration × MemoryStore
  check_of c k =
      check_login_allowed (memory_store digest) h.lower h.limit c.request.username
        (login_ip c.client_ip) c.at.checked_at k

  abbrev pub login_of : LoginCall → h.db.State → Result User × h.db.State
  login_of c s = login h.db h.bcrypt h.users c.request.username c.request.password c.at.login_at s

  module _ (account : String) (start : Time) where
    abbrev pub end : Time
    end = add start h.limit.window

    -- A request for the account while the window is open, by the store's clock.
    abbrev pub IsInWindow : LoginCall → Type 0
    IsInWindow c =
        (normalize_account h.lower c.request.username ≡ account)
        × (start ≤ℤ c.at.checked_at)
        × (c.at.checked_at <ℤ end)
        × (start ≤ℤ c.at.recorded_at)
        × (c.at.recorded_at <ℤ end)

    abbrev pub Held : ℕ → MemoryStore → Type 0
    Held n k = Tally digest account start end n k

    pub checked-Held :
        (n : ℕ) (c : LoginCall) (k : MemoryStore)
        → IsInWindow c
        → Held n k
        → Held n (checked digest h c.at c.request (login_ip c.client_ip) k)
    checked-Held n c k (same, from, before, from', before') held =
        elim (check_cases digest h c.request.username (login_ip c.client_ip) c.at.checked_at k) [
          | inl (bad, kept) ↦ rw kept held
          | inr (told, moved) ↦
              rw (moved, same)
                (check_login_limit-Tally digest account start end n _ _ _ c.at.checked_at k before
                  held)
        ]

    pub recorded-Held :
        (n : ℕ) (c : LoginCall) (k : MemoryStore)
        → is_bad_limit h.limit ≡ false
        → IsInWindow c
        → suc n ≤ count_cap
        → Held n k
        → Held (suc n) (recorded digest h c.at c.request (login_ip c.client_ip) k)
    recorded-Held n c k good (same, from, before, from', before') fits held =
        elim (record_cases digest h c.request.username (login_ip c.client_ip) c.at.recorded_at k) [
          | inl (bad, kept) ↦ absurd (cc)
          | inr (told, moved) ↦
              let long : end ≤ℤ add c.at.recorded_at h.limit.window =
                ground (
                  arith,
                  +ℤ_parts start h.limit.window,
                  +ℤ_parts c.at.recorded_at h.limit.window,
                ) in
              rw (moved, same)
                (record_login_failure-Tally digest account start end n _ _ _ h.limit.window
                  c.at.recorded_at k from' before' long fits held)
        ]

    -- Where a request is let through, the limit had not been reached.
    pub free-below :
        (n : ℕ) (c : LoginCall) (k : MemoryStore)
        → is_bad_limit h.limit ≡ false
        → IsInWindow c
        → Held n k
        → passes_limit (check_of c k).0 ≡ true
        → pos n <ℤ h.limit.account_limit
    free-below zero c k good inside held free = ground arith
    free-below (suc n) c k good (same, from, before, from', before') held free =
        elim (Bool-cases (ltb_ℤ (pos (suc n)) h.limit.account_limit)) [
          | inl below ↦ ltb_ℤ→lt (pos (suc n)) h.limit.account_limit below
          | inr full ↦
              elim (check_cases digest h c.request.username (login_ip c.client_ip) c.at.checked_at
                k) [
                  | inl (bad, kept) ↦ absurd (cc)
                  | inr (told, moved) ↦
                      let wait =
                        check_login_limit digest account (trim_space (login_ip c.client_ip))
                          h.limit.account_limit h.limit.ip_limit c.at.checked_at k in
                      let positive : pos 0 <ℤ wait.0 =
                        check_login_limit-blocks digest account start end n _ _ _ c.at.checked_at k
                          before held (ltb_ℤ→le (pos (suc n)) h.limit.account_limit full) in
                      let held_back : leb_ℤ wait.0 (pos 0) ≡ false = ground arith in
                      absurd (let seen = rw (told, same, held_back) at free in cc)
                ]
        ]
