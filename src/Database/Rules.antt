-- ===== src/Database/Rules.antt =====
-- Rules for calls that are built from statements.
use go_user_system.Common.{◌≡◌, sym, refl, ap}
use go_user_system.Errors.{Error}
use go_user_system.Result.{Result, ok, err, Action, ◌>>=◌, resume, pure}
use go_user_system.Database.{Tables, Acts, done, broken}

ok-ne-err : {A : Type 0} {a : A} {e : Error} → ok a ≡ err e → ⊥
ok-ne-err p = cc

err-injective : {A : Type 0} {d e : Error} → ◌≡◌ {A = Result A} (err d) (err e) → d ≡ e
err-injective p = cc

module _ {S A : Type 0} (view : S → Tables) (s : S) where
  discard-Acts :
      {a : A} (after : Tables) (r : Result A) (t : S)
      → Acts view (ok a, after) s (r, t)
      → Acts view (ok tt, after) s (resume (λ _. pure tt) r t)
  discard-Acts after (ok a) t (done p q) = done refl q
  discard-Acts after (err e) t (done p q) = absurd (ok-ne-err (sym p))
  discard-Acts after (ok a) t (broken text p q) = absurd (ok-ne-err p)
  discard-Acts after (err e) t (broken text p q) = broken text (ap err (err-injective p)) q

  -- A write whose answer is not used.
  pub write-Acts :
      {a : A} {after : Tables} (act : Action S A)
      → Acts view (ok a, after) s (act s)
      → Acts view (ok tt, after) s ((act >>= λ _. pure tt) s)
  write-Acts {after} act h = discard-Acts after (act s).0 (act s).1 h
