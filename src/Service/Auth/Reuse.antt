-- ===== src/Service/Auth/Reuse.antt =====
-- Two rotations of one refresh token, with calls on the session service between them.
use go_user_system.Common.{String, Bool, true, none, some, ◌≡◌, ◌≢◌, refl, sym, List, [], ◌∷◌, all}
use mathlib.Core.Path.{subst}
use go_user_system.Common.Int.{ℤ}
use go_user_system.Common.Time.{Time}
use go_user_system.Model.{RefreshToken}
use go_user_system.Result.{Result, ok}
use go_user_system.Database.{Database, Tables}
use go_user_system.Service.Auth.{rotate_refresh_token}
use go_user_system.Service.Auth.Sessions.{RotationEnds, rotate_refresh_token_ends, request_verdict}
use go_user_system.Service.Auth.Calls.{
  Call, rotate, store, revoke, revoke_all, stores_only, run, IsKept, request-rotates, run-keeps,
}
use go_user_system.Service.Auth.Spent.{
  IsSpent, exchanged-spends, exchanged-IsSpent, spent-ne-rotates, verdict-rotates, stored-IsSpent,
  replaced-IsSpent, family_revoked-IsSpent, all_revoked-IsSpent,
}

stores_any : (call : Call) → stores_only (λ token. true) call ≡ true
stores_any (rotate initialized user_id version jti hash next requested checked written) = refl
stores_any (store initialized (some token)) = refl
stores_any (store initialized none) = refl
stores_any (revoke initialized user_id jti hash now) = refl
stores_any (revoke_all initialized user_id now) = refl

all_store_any : (calls : List Call) → all (stores_only (λ token. true)) calls ≡ true
all_store_any [] = refl
all_store_any (call ∷ calls) = rw (stores_any call) (all_store_any calls)

module _ (db : Database) (jti : String) where
  open db use {State, view}

  moves : (t : Tables) {u : Tables} → u ≡ t → IsSpent db jti t → IsSpent db jti u
  moves t e h = subst (IsSpent db jti) (sym e) h

  IsSpent-IsKept : IsKept db (λ token. true) (IsSpent db jti)
  IsSpent-IsKept = record {
    by_exchange = λ user_id version old hash next checked written t c found held new.
        exchanged-IsSpent db jti user_id version old hash next checked written t c new;
    by_family = family_revoked-IsSpent db jti;
    by_id = replaced-IsSpent db jti;
    by_user = all_revoked-IsSpent db jti;
    by_store = λ token t allowed good new. stored-IsSpent db jti token t new;
  }

  pub run-IsSpent :
      (calls : List Call) (s : State)
      → IsSpent db jti (view s)
      → IsSpent db jti (view (run db calls s))
  run-IsSpent calls s =
      run-keeps db (λ token. true) (IsSpent db jti) IsSpent-IsKept calls s (all_store_any calls)

  pub ok-spends :
      (initialized : Bool) (user_id version : ℤ) (hash : String) (next : RefreshToken)
      (requested checked written : Time) (t : Tables) (o : Result (Unit {0}) × State)
      → RotationEnds db user_id version jti hash next checked written t
          (request_verdict db user_id version jti hash next checked written initialized requested t)
          o
      → o.0 ≡ ok tt
      → ¬ IsSpent db jti t × IsSpent db jti (view o.1)
  ok-spends initialized user_id version hash next requested checked written t o
        (RotationEnds.refusal e v r w) k =
      absurd (cc)
  ok-spends initialized user_id version hash next requested checked written t o
        (RotationEnds.replay c v r w) k =
      absurd (cc)
  ok-spends initialized user_id version hash next requested checked written t o
        (RotationEnds.success c v new r w) k =
      let good =
        request-rotates db initialized user_id version jti hash next requested checked written t c
          v in
      (
        λ h. spent-ne-rotates db jti user_id version hash next checked written t c h good,
        moves _ w (
            exchanged-spends db jti user_id version hash next checked written t c
              (verdict-rotates db jti user_id version hash next checked written t c good).0),
      )
  ok-spends initialized user_id version hash next requested checked written t o
        (RotationEnds.fault e r f w) k =
      absurd (cc)

-- Once a refresh token has been rotated, no later rotation of it succeeds: whatever calls on the
-- session service come between, and whoever presents it with whatever data.
pub rotates_once :
    (db : Database) (jti : String) (first again : Bool) (user_id user_id' version version' : ℤ)
    (hash hash' : String) (next next' : RefreshToken)
    (requested checked written requested' checked' written' : Time) (calls : List Call)
    (s : db.State)
    → (rotate_refresh_token db first user_id version jti hash
        (some next)
        requested
        checked
        written
        s).0
      ≡ ok tt
    → let s' =
        run db calls
          (rotate_refresh_token db first user_id version jti hash
            (some next)
            requested
            checked
            written
            s).1 in
      (rotate_refresh_token db again user_id' version' jti hash'
        (some next')
        requested'
        checked'
        written'
        s').0
      ≢ ok tt
rotates_once db jti first again user_id user_id' version version' hash hash' next next' requested
      checked written requested' checked' written' calls s good bad =
    let o =
      rotate_refresh_token db first user_id version jti hash (some next) requested checked written
        s in
    let spent =
      (ok-spends db jti first user_id version hash next requested checked written (db.view s) o
        (rotate_refresh_token_ends db user_id version jti hash next checked written first requested
          s)
        good).1 in
    let later = run-IsSpent db jti calls o.1 spent in
    let s' = run db calls o.1 in
    (ok-spends db jti again user_id' version' hash' next' requested' checked' written' (db.view s')
        _
        (rotate_refresh_token_ends db user_id' version' jti hash' next' checked' written' again
          requested' s')
        bad).0
      later
