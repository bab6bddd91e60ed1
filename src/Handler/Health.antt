-- ===== src/Handler/Health.antt =====
-- internal/handler/health_handler.go: `ReadyzHandler`. What gorm and the checkers answer is an
-- argument; the recorder of readiness keeps the last value that it was given.
use go_user_system.Common.{
  Bool, true, false, ◌&&◌, not, Option, none, some, List, [], ◌∷◌, all, if◌then◌else◌, String, ◌≡◌,
  refl, arith,
}
use go_user_system.Errors.{Code}
use go_user_system.Handler.{reply}
use go_user_system.Handler.Account.{Answer, failed, succeeded}

-- Whether there is a database with its settings, whether its pool opens and answers a ping, whether
-- each checker does, if it is there, and whether there is a recorder.
pub record HealthHandler : Type 0 where
  pub has_db : Bool
  pub has_config : Bool
  pub opens : Bool
  pub pings : Bool
  pub checkers : List (Option Bool)
  pub has_recorder : Bool

abbrev pub has_succeeded : {A : Type 0} → Answer A → Bool
has_succeeded (failed r) = false
has_succeeded (succeeded a) = true

abbrev pub Readiness : Type 0
Readiness = Option Bool

module _ (h : HealthHandler) where
  abbrev pub record_readiness : Bool → Readiness → Readiness
  record_readiness ready before = if h.has_recorder then some ready else before

  abbrev pub fail_readiness : String → Readiness → Answer (Unit {0}) × Readiness
  fail_readiness message before =
      (failed (reply 503 Code.readiness_failed message), record_readiness false before)

  abbrev pub ask_checkers : List (Option Bool) → Readiness → Answer (Unit {0}) × Readiness
  ask_checkers [] before = (succeeded tt, record_readiness true before)
  ask_checkers (none ∷ checkers) before = ask_checkers checkers before
  ask_checkers (some true ∷ checkers) before = ask_checkers checkers before
  ask_checkers (some false ∷ checkers) before =
      fail_readiness "authentication state store is not ready" before

  unfoldable pub readyz_handler : Readiness → Answer (Unit {0}) × Readiness
  readyz_handler before =
      if not h.has_db
      then fail_readiness "database is not initialized" before
      else if not h.has_config
      then fail_readiness "database is not ready" before
      else if not h.opens
      then fail_readiness "database is not ready" before
      else if not h.pings
      then fail_readiness "database is not ready" before
      else ask_checkers h.checkers before

  abbrev pub answers : Option Bool → Bool
  answers none = true
  answers (some b) = b

  -- All that a request needs is there.
  abbrev pub is_ready : Bool
  is_ready = h.has_db && h.has_config && h.opens && h.pings && all answers h.checkers

  abbrev pub IsReported : Bool → Readiness → Answer (Unit {0}) × Readiness → Type 0
  IsReported ready before o = (has_succeeded o.0 ≡ ready) × (o.1 ≡ record_readiness ready before)

  ask_checkers_lem :
      (checkers : List (Option Bool)) (before : Readiness)
      → IsReported (all answers checkers) before (ask_checkers checkers before)
  ask_checkers_lem [] before = (refl, refl)
  ask_checkers_lem (none ∷ checkers) before = ask_checkers_lem checkers before
  ask_checkers_lem (some true ∷ checkers) before = ask_checkers_lem checkers before
  ask_checkers_lem (some false ∷ checkers) before = (refl, refl)

-- `ReadyzHandler` answers with success exactly if the database and every checker answer, and
-- records the same.
pub readyz_handler-is_ready :
    (h : HealthHandler) (before : Readiness)
    → IsReported h (is_ready h) before (readyz_handler h before)
unfolding readyz_handler
readyz_handler-is_ready h before =
    let asked = ask_checkers_lem h h.checkers before in
    (ground (arith, asked.0), ground (arith, asked.1))
