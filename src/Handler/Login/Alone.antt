-- ===== src/Handler/Login/Alone.antt =====
-- A request to `LoginHandler` that is served with no other in between is a sequence of the steps of
-- requests that are served at the same time.
use go_user_system.Common.{ℕ, String, [], if◌then◌else◌}
use go_user_system.Common.Time.{Time}
use go_user_system.AuthState.{MemoryStore}
use go_user_system.Handler.{UserHandler}
use go_user_system.Handler.Login.{passes_limit}
use go_user_system.Handler.Login.Guesses.{Guess, untried, guess_of_login}
use go_user_system.Handler.Login.Guessing.{LoginCall, check_of, login_of}
use go_user_system.Handler.Login.Traffic.{Now, Step}

module _ (digest : String → String) (h : UserHandler) (account : String) (start : Time) where
  pub data Steps : Now digest h account start → Now digest h account start → Type 0 where
    stay : (y : Now digest h account start) → Steps y y
    onward :
        (x y z : Now digest h account start)
        → Steps x y
        → Step digest h account start y z
        → Steps x z

  abbrev pub quiet : h.db.State × MemoryStore → ℕ → ℕ → Now digest h account start
  quiet s compared noted = record {
    state = s.0;
    store = s.1;
    flights = [];
    compared = compared;
    noted = noted;
  }

  -- Whether the password was compared, and was wrong or right.
  abbrev pub guess : LoginCall → h.db.State → MemoryStore → Guess
  guess c s k =
      if passes_limit (check_of digest h c k).0
      then guess_of_login (login_of digest h c s).0
      else untried
