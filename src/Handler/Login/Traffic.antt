-- ===== src/Handler/Login/Traffic.antt =====
-- Requests to `LoginHandler` against one account that are served at the same time: the handler holds
-- no lock between the check of the limit, the comparison of the password and the record of a
-- failure, so each of these is a step of its own.
use go_user_system.Common.{ℕ, suc, ◌≤◌, String, true, false, List, [], ◌∷◌, ◌++◌, length, ◌≡◌}
use go_user_system.Common.Time.{Time}
use go_user_system.Common.Dict.{lookup}
use go_user_system.AuthState.{MemoryStore, account_failure_key}
use go_user_system.Handler.{UserHandler}
use go_user_system.Handler.Login.{login_ip, passes_limit}
use go_user_system.Handler.Login.Guesses.{untried, wrong, guess_of_login, checked, recorded}
use go_user_system.Handler.Login.Guessing.{LoginCall, check_of, login_of, IsInWindow}

-- A request that the limiter let through, or whose password was wrong and is not yet recorded.
pub data Flight : Type 0 where
  admitted mistaken : LoginCall → Flight

-- The requests in flight, and how many passwords were compared and wrong, and how many of these
-- have been recorded.
pub record Traffic (S : Type 0) : Type 0 where
  pub state : S
  pub store : MemoryStore
  pub flights : List Flight
  pub compared : ℕ
  pub noted : ℕ

module _ (digest : String → String) (h : UserHandler) (account : String) (start : Time) where
  abbrev pub Now : Type 0
  Now = Traffic h.db.State

  abbrev pub after_check : LoginCall → Now → MemoryStore
  after_check c y = checked digest h c.at c.request (login_ip c.client_ip) y.store

  abbrev pub after_record : LoginCall → Now → MemoryStore
  after_record c y = recorded digest h c.at c.request (login_ip c.client_ip) y.store

  -- A step of a request for the account, none of which has the right password; or a step of any
  -- other request, which may change all but the counter of the account.
  pub data Step : Now → Now → Type 0 where
    let_through :
        (c : LoginCall) (y : Now)
        → IsInWindow digest h account start c
        → passes_limit (check_of digest h c y.store).0 ≡ true
        → Step y (record y { store = after_check c y; flights = admitted c ∷ y.flights })
    turned_away :
        (c : LoginCall) (y : Now)
        → IsInWindow digest h account start c
        → passes_limit (check_of digest h c y.store).0 ≡ false
        → Step y (record y { store = after_check c y })
    fails :
        (c : LoginCall) (y : Now) (before after : List Flight)
        → y.flights ≡ before ++ admitted c ∷ after
        → guess_of_login (login_of digest h c y.state).0 ≡ wrong
        → Step y (record y {
          state = (login_of digest h c y.state).1;
          flights = before ++ mistaken c ∷ after;
          compared = suc y.compared;
        })
    gives_up :
        (c : LoginCall) (y : Now) (before after : List Flight)
        → y.flights ≡ before ++ admitted c ∷ after
        → guess_of_login (login_of digest h c y.state).0 ≡ untried
        → Step y (record y { state = (login_of digest h c y.state).1; flights = before ++ after })
    records :
        (c : LoginCall) (y : Now) (before after : List Flight)
        → y.flights ≡ before ++ mistaken c ∷ after
        → IsInWindow digest h account start c
        → Step y
            (record y { store = after_record c y; flights = before ++ after; noted = suc y.noted })
    elsewhere :
        (y : Now) (state : h.db.State) (store : MemoryStore)
        → lookup (account_failure_key digest account) store.counters
          ≡ lookup (account_failure_key digest account) y.store.counters
        → Step y (record y { state = state; store = store })

  -- From a beginning with no request in flight, with never more than a number of them.
  pub data Reach (most : ℕ) (state : h.db.State) (store : MemoryStore) : Now → Type 0 where
    begin :
        Reach most state store
          (record { state = state; store = store; flights = []; compared = 0; noted = 0 })
    next :
        {y z : Now}
        → Reach most state store y
        → Step y z
        → length z.flights ≤ most
        → Reach most state store z
