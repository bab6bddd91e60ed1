-- ===== src/Handler/Login/Bounded.antt =====
-- How many passwords of an account are compared while a window of failed logins is open, with
-- requests served at the same time, and the request that comes when the limit is reached.
use go_user_system.Common.{
  String, ℕ, zero, suc, ◌+◌, ◌≤◌, Bool, List, [], ◌∷◌, ◌++◌, none, some, true, false, ◌≡◌, refl,
  ◌∙◌, ap, arith, inl, inr, length, count_if,
}
use go_user_system.Common.Int.{ℤ, pos, ◌≤ℤ◌, ◌<ℤ◌, leb_ℤ}
use go_user_system.Common.Text.{trim_space}
use go_user_system.Common.Time.{Time, add}
use go_user_system.AuthState.{MemoryStore, check_login_limit}
use go_user_system.AuthState.Lockout.{count_cap}
use go_user_system.AuthState.Limits.{account_seen}
use go_user_system.AuthState.Tally.{unseen-Tally, moved-Tally, check_login_limit-blocks}
use go_user_system.Service.Access.{is_bad_limit}
use go_user_system.Errors.{Code, from_error}
use go_user_system.Middleware.{handle_error}
use go_user_system.Handler.{UserHandler, reply}
use go_user_system.Handler.Login.{limited, login_handler, login_ip, retry_after_seconds}
use go_user_system.Handler.Login.Guesses.{in_memory, check_cases}
use go_user_system.Handler.Login.Guessing.{
  LoginCall, Both, IsInWindow, Held, checked-Held, recorded-Held, free-below,
}
use go_user_system.Handler.Login.Traffic.{
  Flight, admitted, mistaken, Now, Step, let_through, turned_away, fails, gives_up, records,
  elsewhere, Reach, begin, next,
}

abbrev is_mistaken : Flight → Bool
is_mistaken (admitted c) = false
is_mistaken (mistaken c) = true

length-insert :
    (before after : List Flight) (f : Flight)
    → length (before ++ f ∷ after) ≡ length (before ++ after) + 1
length-insert [] after f = omega arith
length-insert (b ∷ before) after f = ground (arith, length-insert before after f)

mistaken-insert :
    (before after : List Flight) (c : LoginCall)
    → count_if is_mistaken (before ++ mistaken c ∷ after)
      ≡ count_if is_mistaken (before ++ after) + 1
mistaken-insert [] after c = omega arith
mistaken-insert (b ∷ before) after c = ground (arith, mistaken-insert before after c)

admitted-insert :
    (before after : List Flight) (c : LoginCall)
    → count_if is_mistaken (before ++ admitted c ∷ after) ≡ count_if is_mistaken (before ++ after)
admitted-insert [] after c = refl
admitted-insert (b ∷ before) after c = ground (arith, admitted-insert before after c)

mistaken-le : (fs : List Flight) → count_if is_mistaken fs ≤ length fs
mistaken-le [] = omega arith
mistaken-le (f ∷ fs) = ground (arith, mistaken-le fs)

module _ (digest : String → String) (h : UserHandler) (account : String) (start : Time) where
  -- The counter holds what was recorded, what was compared is recorded or in flight, and there is
  -- room for what is in flight.
  record IsCounted (limit most : ℕ) (y : Now digest h account start) : Type 0 where
    held : Held digest h account start y.noted y.store
    owed : y.compared ≡ y.noted + count_if is_mistaken y.flights
    room : y.noted + length y.flights + 1 ≤ limit + most

  Step-IsCounted :
      (limit most : ℕ) {y z : Now digest h account start}
      → h.limit.account_limit ≡ pos limit
      → is_bad_limit h.limit ≡ false
      → limit + most ≤ count_cap
      → Step digest h account start y z
      → length z.flights ≤ most
      → IsCounted limit most y
      → IsCounted limit most z
  Step-IsCounted limit most lim good small (let_through c y inside free) few inv =
      let below = free-below digest h account start y.noted c y.store good inside inv.held free in
      record {
        held = checked-Held digest h account start y.noted c y.store inside inv.held;
        owed = inv.owed;
        room = ground (arith, lim, below, few);
      }
  Step-IsCounted limit most lim good small (turned_away c y inside busy) few inv = record {
    held = checked-Held digest h account start y.noted c y.store inside inv.held;
    owed = inv.owed;
    room = inv.room;
  }
  Step-IsCounted limit most lim good small (fails c y before after same bad) few inv =
      let a = admitted-insert before after c in
      let m = mistaken-insert before after c in
      let la = length-insert before after (admitted c) in
      let lm = length-insert before after (mistaken c) in
      let sum = inv.owed ∙ ap (λ fs. y.noted + count_if is_mistaken fs) same in
      let size = ap length same in
      record {
        held = inv.held;
        owed = omega (arith, a, m, sum);
        room = omega (arith, la, lm, size, inv.room);
      }
  Step-IsCounted limit most lim good small (gives_up c y before after same left) few inv =
      let a = admitted-insert before after c in
      let la = length-insert before after (admitted c) in
      let sum = inv.owed ∙ ap (λ fs. y.noted + count_if is_mistaken fs) same in
      let size = ap length same in
      record {
        held = inv.held;
        owed = omega (arith, a, sum);
        room = omega (arith, la, size, inv.room);
      }
  Step-IsCounted limit most lim good small (records c y before after same inside) few inv =
      let m = mistaken-insert before after c in
      let lm = length-insert before after (mistaken c) in
      let sum = inv.owed ∙ ap (λ fs. y.noted + count_if is_mistaken fs) same in
      let size = ap length same in
      record {
        held =
            recorded-Held digest h account start y.noted c y.store good inside
              (omega (arith, lm, size, inv.room, small)) inv.held;
        owed = omega (arith, m, sum);
        room = omega (arith, lm, size, inv.room);
      }
  Step-IsCounted limit most lim good small (elsewhere y state store same) few inv = record {
    held =
        moved-Tally digest account start (add start h.limit.window) y.noted y.store store same
          inv.held;
    owed = inv.owed;
    room = inv.room;
  }

  Reach-IsCounted :
      (limit most : ℕ) (state : h.db.State) (store : MemoryStore) (y : Now digest h account start)
      → h.limit.account_limit ≡ pos limit
      → is_bad_limit h.limit ≡ false
      → limit + most ≤ count_cap
      → account_seen digest account start store ≡ none
      → Reach digest h account start most state store y
      → IsCounted limit most y
  Reach-IsCounted limit most state store y lim good small unseen begin = record {
    held = unseen-Tally digest account start (add start h.limit.window) store unseen;
    owed = omega arith;
    room = ground (arith, lim, good);
  }
  Reach-IsCounted limit most state store y lim good small unseen (next {y = x} reach step few) =
      Step-IsCounted limit most lim good small step few
        (Reach-IsCounted limit most state store x lim good small unseen reach)

  -- While the counter is full, every request of the window is turned away.
  full-limited :
      (n : ℕ) (c : LoginCall) (s : Both digest h)
      → is_bad_limit h.limit ≡ false
      → IsInWindow digest h account start c
      → Held digest h account start n s.1
      → h.limit.account_limit ≤ℤ pos n
      → let o = login_handler (in_memory digest h) c.at c.client_ip (some c.request) s in
        (seconds : ℤ) × (o.0
          ≡ limited seconds (reply 429 Code.login_rate_limited "too many login attempts"))
        × (o.1.0 ≡ s.0)
  unfolding login_handler handle_error from_error
  full-limited zero c s good inside held full = absurd (ground arith)
  full-limited (suc n) c s good (same, from, before, from', before') held full =
      elim (check_cases digest h c.request.username (login_ip c.client_ip) c.at.checked_at s.1) [
        | inl (bad, kept) ↦ absurd (cc)
        | inr (told, moved) ↦
            let wait =
              check_login_limit digest account (trim_space (login_ip c.client_ip))
                h.limit.account_limit h.limit.ip_limit c.at.checked_at s.1 in
            let positive : pos 0 <ℤ wait.0 =
              check_login_limit-blocks digest account start (add start h.limit.window) n _ _ _
                c.at.checked_at s.1 before held full in
            let held_back : leb_ℤ wait.0 (pos 0) ≡ false = ground arith in
            (
              retry_after_seconds wait.0,
              rw (told, same, held_back) refl,
              rw (told, same, held_back) refl,
            )
      ]

  -- Let a window of failed logins of an account open at a time when none is counted in the memory
  -- store, under limits that are set and small enough for an int64. Let the requests to log in to
  -- it be checked and recorded while the window lasts, by the store's clock, in any interleaving of
  -- their steps and with any other steps that leave the counter of the account, and let none of
  -- them have the right password. Then fewer wrong passwords are compared than the limit of an
  -- account and the most requests that are let through at a time make together: with one at a time,
  -- at most as many as the limit says.
  pub wrong_guesses_bounded :
      (limit most : ℕ) (state : h.db.State) (store : MemoryStore) (y : Now digest h account start)
      → h.limit.account_limit ≡ pos limit
      → is_bad_limit h.limit ≡ false
      → limit + most ≤ count_cap
      → account_seen digest account start store ≡ none
      → Reach digest h account start most state store y
      → y.compared + 1 ≤ limit + most
  wrong_guesses_bounded limit most state store y lim good small unseen reach =
      let inv = Reach-IsCounted limit most state store y lim good small unseen reach in
      omega (arith, inv.owed, inv.room, mistaken-le y.flights)

  -- Let a window of failed logins of an account open at a time when none is counted in the memory
  -- store, under limits that are set and small enough for an int64. Let the requests to log in to
  -- it be checked and recorded while the window lasts, by the store's clock, in any interleaving of
  -- their steps and with any other steps that leave the counter of the account, and let none of
  -- them have the right password. Once as many wrong passwords are recorded as the limit of an
  -- account says, a further request for the account in the window, also one with the right
  -- password, is answered with status 429 and leaves the database as it is.
  pub login_handler_locks :
      (limit most : ℕ) (state : h.db.State) (store : MemoryStore) (y : Now digest h account start)
      (c : LoginCall)
      → h.limit.account_limit ≡ pos limit
      → is_bad_limit h.limit ≡ false
      → limit + most ≤ count_cap
      → account_seen digest account start store ≡ none
      → Reach digest h account start most state store y
      → limit ≤ y.noted
      → IsInWindow digest h account start c
      → let o =
          login_handler (in_memory digest h) c.at c.client_ip (some c.request) (y.state, y.store) in
        (seconds : ℤ) × (o.0
          ≡ limited seconds (reply 429 Code.login_rate_limited "too many login attempts"))
        × (o.1.0 ≡ y.state)
  login_handler_locks limit most state store y c lim good small unseen reach full inside =
      full-limited y.noted c (y.state, y.store) good inside
        (Reach-IsCounted limit most state store y lim good small unseen reach).held
        (ground (arith, lim))
