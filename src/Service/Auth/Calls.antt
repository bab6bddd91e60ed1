-- ===== src/Service/Auth/Calls.antt =====
-- Sequences of calls on the session service, each a transaction of its own, in the order in which
-- the database takes them, and what such a sequence keeps.
use go_user_system.Common.{
  arith, String, Bool, true, false, ◌||◌, not, Option, none, some, ◌≡◌, sym, first, any, all, List,
  [], ◌∷◌,
}
use mathlib.Core.Path.{subst}
use go_user_system.Common.Int.{ℤ}
use go_user_system.Common.Time.{Time}
use go_user_system.Model.{RefreshToken, Reason, replay_detected, logout, password_change}
use go_user_system.Result.{Result}
use go_user_system.Database.{Database, Tables, clashes}
use go_user_system.Repository.{has_jti}
use go_user_system.Repository.Laws.{replaced, family_revoked, all_revoked}
use go_user_system.Service.Auth.{
  is_some, rotate_refresh_token, revoke_refresh_token, store_refresh_token,
  revoke_all_refresh_tokens,
}
use go_user_system.Service.Auth.Rotation.{rotates, verdict, exchanged}
use go_user_system.Service.Auth.Sessions.{RotationEnds, rotate_refresh_token_ends, request_verdict}
use go_user_system.Service.Auth.Stored.{
  StoreEnds, store_refresh_token_ends, RevokeAllEnds, revoke_all_refresh_tokens_ends, stored,
  is_bad_token,
}
use go_user_system.Service.Auth.Logout
use go_user_system.Service.Auth.Logout.{LogoutEnds, revoke_refresh_token_ends}
use go_user_system.Service.Auth.Spent.{verdict-rotates}

pub data Call : Type 0 where
  rotate : Bool → ℤ → ℤ → String → String → Option RefreshToken → Time → Time → Time → Call
  store : Bool → Option RefreshToken → Call
  revoke : Bool → ℤ → String → String → Time → Call
  revoke_all : Bool → ℤ → Time → Call

-- The tokens that calls store, but for those of rotations.
abbrev pub stores_only : (RefreshToken → Bool) → Call → Bool
stores_only allows (store initialized (some token)) = allows token
stores_only allows _ = true

module _ (db : Database) where
  open db use {State, view, collates}

  unfoldable pub perform : Call → State → State
  perform (rotate initialized user_id version jti hash next requested checked written) s =
      (rotate_refresh_token db initialized user_id version jti hash next requested checked written
        s).1
  perform (store initialized token) s = (store_refresh_token db initialized token s).1
  perform (revoke initialized user_id jti hash now) s =
      (revoke_refresh_token db initialized user_id jti hash now s).1
  perform (revoke_all initialized user_id now) s =
      (revoke_all_refresh_tokens db initialized user_id now s).1

  unfoldable pub run : List Call → State → State
  run [] s = s
  run (call ∷ calls) s = run calls (perform call s)

  -- Each change of the tables by a call of the session service leaves a condition true.
  pub record IsKept (allows : RefreshToken → Bool) (P : Tables → Type 0) : Type 0 where
    pub by_exchange :
        (user_id version : ℤ) (old hash : String) (next : RefreshToken) (checked written : Time)
        (t : Tables) (c : RefreshToken)
        → first (has_jti db old) t.tokens ≡ some c
        → is_some c.revoked_at ≡ false
        → any (clashes collates next) t.tokens ≡ false
        → P t
        → P (exchanged db user_id version old hash next checked written c t)
    pub by_family :
        (user_id : ℤ) (family_id : String) (at : Time) (reason : Reason) (t : Tables)
        → P t
        → P (family_revoked db user_id family_id at reason t)
    pub by_id :
        (jti : String) (at : Time) (reason : Reason) (by : Option String) (t : Tables)
        → P t
        → P (replaced db jti at reason by t)
    pub by_user :
        (user_id : ℤ) (at : Time) (reason : Reason) (t : Tables)
        → P t
        → P (all_revoked db user_id at reason t)
    pub by_store :
        (token : RefreshToken) (t : Tables)
        → allows token ≡ true
        → is_bad_token token ≡ false
        → any (clashes collates token) t.tokens ≡ false
        → P t
        → P (stored token t)

  pub request-rotates :
      (initialized : Bool) (user_id version : ℤ) (jti hash : String) (next : RefreshToken)
      (requested checked written : Time) (t : Tables) (c : RefreshToken)
      → request_verdict db user_id version jti hash next checked written initialized requested t
        ≡ rotates c
      → verdict db user_id version jti hash next checked written t ≡ rotates c
  request-rotates initialized user_id version jti hash next requested checked written t c h =
      ground arith

  module _ (allows : RefreshToken → Bool) (P : Tables → Type 0) (k : IsKept allows P) where
    moves : (t : Tables) {u : Tables} → u ≡ t → P t → P u
    moves t e h = subst P (sym e) h

    rotation-keeps :
        (initialized : Bool) (user_id version : ℤ) (old hash : String) (next : RefreshToken)
        (requested checked written : Time) (t : Tables) (o : Result (Unit {0}) × State)
        → RotationEnds db user_id version old hash next checked written t
            (request_verdict db user_id version old hash next checked written initialized requested
              t)
            o
        → P t
        → P (view o.1)
    rotation-keeps initialized user_id version old hash next requested checked written t o
          (RotationEnds.refusal e v r w) h =
        moves _ w h
    rotation-keeps initialized user_id version old hash next requested checked written t o
          (RotationEnds.replay c v r w) h =
        moves _ w (k.by_family user_id c.family_id checked replay_detected t h)
    rotation-keeps initialized user_id version old hash next requested checked written t o
          (RotationEnds.success c v new r w) h =
        let good =
          request-rotates initialized user_id version old hash next requested checked written t c
            v in
        let (found, held) =
          verdict-rotates db old user_id version hash next checked written t c good in
        moves _ w (k.by_exchange user_id version old hash next checked written t c found held new h)
    rotation-keeps initialized user_id version old hash next requested checked written t o
          (RotationEnds.fault e r f w) h =
        moves _ w h

    store-keeps :
        (initialized : Bool) {token : RefreshToken} {t : Tables} {o : Result (Unit {0}) × State}
        → allows token ≡ true
        → StoreEnds db token t (not initialized || is_bad_token token) o
        → P t
        → P (view o.1)
    store-keeps initialized a (StoreEnds.refusal e b r w) h = moves _ w h
    store-keeps initialized {token} {t} a (StoreEnds.success b new r w) h =
        moves _ w (k.by_store token t a (ground arith) new h)
    store-keeps initialized a (StoreEnds.fault e r f w) h = moves _ w h

    revoke-keeps :
        {user_id : ℤ} {other hash : String} {now : Time} {t : Tables} {v : Logout.Verdict}
        {o : Result (Unit {0}) × State}
        → LogoutEnds db user_id other hash now t v o
        → P t
        → P (view o.1)
    revoke-keeps (LogoutEnds.refusal e v r w) h = moves _ w h
    revoke-keeps (LogoutEnds.nothing v r w) h = moves _ w h
    revoke-keeps {other} {now} {t} (LogoutEnds.success v r w) h =
        moves _ w (k.by_id other now logout none t h)
    revoke-keeps (LogoutEnds.fault e r f w) h = moves _ w h

    revoke_all-keeps :
        {user_id : ℤ} {now : Time} {t : Tables} {bad : Bool} {o : Result (Unit {0}) × State}
        → RevokeAllEnds db user_id now t bad o
        → P t
        → P (view o.1)
    revoke_all-keeps (RevokeAllEnds.refusal e b r w) h = moves _ w h
    revoke_all-keeps {user_id} {now} {t} (RevokeAllEnds.success b r w) h =
        moves _ w (k.by_user user_id now password_change t h)
    revoke_all-keeps (RevokeAllEnds.fault e r f w) h = moves _ w h

    perform-keeps :
        (call : Call) (s : State)
        → stores_only allows call ≡ true
        → P (view s)
        → P (view (perform call s))
    unfolding perform rotate_refresh_token store_refresh_token
    perform-keeps
          (rotate initialized user_id version old hash (some next) requested checked written) s a
          h =
        rotation-keeps initialized user_id version old hash next requested checked written (view s)
          _
          (rotate_refresh_token_ends db user_id version old hash next checked written initialized
            requested s)
          h
    perform-keeps (rotate true user_id version old hash none requested checked written) s a h = h
    perform-keeps (rotate false user_id version old hash none requested checked written) s a h = h
    perform-keeps (store initialized (some token)) s a h =
        store-keeps initialized a (store_refresh_token_ends db initialized token s) h
    perform-keeps (store true none) s a h = h
    perform-keeps (store false none) s a h = h
    perform-keeps (revoke initialized user_id other hash now) s a h =
        revoke-keeps (revoke_refresh_token_ends db user_id other hash now initialized s) h
    perform-keeps (revoke_all initialized user_id now) s a h =
        revoke_all-keeps (revoke_all_refresh_tokens_ends db initialized user_id now s) h

    pub run-keeps :
        (calls : List Call) (s : State)
        → all (stores_only allows) calls ≡ true
        → P (view s)
        → P (view (run calls s))
    unfolding run
    run-keeps [] s a h = h
    run-keeps (call ∷ calls) s a h =
        run-keeps calls (perform call s) (ground arith) (perform-keeps call s (ground arith) h)
