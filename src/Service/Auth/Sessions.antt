-- ===== src/Service/Auth/Sessions.antt =====
-- `RotateRefreshToken` as its callers see it: how it ends, and what a session can do afterwards.
use go_user_system.Common.{
  String, Bool, true, false, not, some, if◌then◌else◌, ◌≡◌, refl, sym, ap, ◌∙◌, any, Bool-cases,
  inl, inr,
}
use go_user_system.Common.Int.{ℤ}
use go_user_system.Common.Time.{Time}
use go_user_system.Errors.{
  Error, sentinel, error_is, database_not_initialized, refresh_token_replay, Sentinel,
}
use go_user_system.Model.{RefreshToken, replay_detected}
use go_user_system.Result.{Result, ok, err, Action, resume, raise_if}
use go_user_system.Database.{Database, Tables, clashes, Ends, committed, rolled_back, failed}
use go_user_system.Repository.Laws.{family_revoked}
use go_user_system.Service.Auth.{rotate_body, is_bad_rotation, rotate_refresh_token}
use go_user_system.Service.Promise.{IsFault}
use go_user_system.Service.Auth.Rotation.{
  Verdict, refused, replayed, rotates, verdict, exchanged, BodyEnds, refuses, revokes, exchanges,
  faults, rotate_body_ends,
}

module _ (db : Database) (user_id auth_version : ℤ) (old_jti old_hash : String)
    (next : RefreshToken) (checked written : Time) where
  open db use {State, view, collates}

  -- How a rotation ends, for a verdict on the tables of before.
  pub data RotationEnds (t : Tables) (v : Verdict) (o : Result (Unit {0}) × State) : Type 0 where
    refusal :
        (e : Sentinel) → v ≡ refused e → o.0 ≡ err (sentinel e) → view o.1 ≡ t → RotationEnds t v o
    replay :
        (c : RefreshToken)
        → v ≡ replayed c
        → o.0 ≡ err (sentinel refresh_token_replay)
        → view o.1 ≡ family_revoked db user_id c.family_id checked replay_detected t
        → RotationEnds t v o
    success :
        (c : RefreshToken)
        → v ≡ rotates c
        → any (clashes collates next) t.tokens ≡ false
        → o.0 ≡ ok tt
        → view o.1 ≡ exchanged db user_id auth_version old_jti old_hash next checked written c t
        → RotationEnds t v o
    fault : (e : Error) → o.0 ≡ err e → IsFault e → view o.1 ≡ t → RotationEnds t v o

  abbrev body : Action State Bool
  body = rotate_body db user_id auth_version old_jti old_hash next checked written

  abbrev judge : Tables → Verdict
  judge = verdict db user_id auth_version old_jti old_hash next checked written

  abbrev answer : Result Bool × State → Result (Unit {0}) × State
  answer o = resume (λ seen. raise_if seen (sentinel refresh_token_replay)) o.0 o.1

  commits :
      (s t : State) (a : Bool) (o : Result Bool × State)
      → view t ≡ view s
      → (body t).0 ≡ ok a
      → o.0 ≡ ok a
      → view o.1 ≡ view (body t).1
      → BodyEnds db user_id auth_version old_jti old_hash next checked written (view t) (body t)
      → RotationEnds (view s) (judge (view s)) (answer o)
  commits s t a o same ran result end (refuses e v r) = absurd (cc)
  commits s t a o same ran result end (revokes c v r w) =
      let seen : a ≡ true = cc in
      rw (result, seen)
        (replay c (ap judge (sym same) ∙ v) refl
          (end ∙ w ∙ ap (family_revoked db user_id c.family_id checked replay_detected) same))
  commits s t a o same ran result end (exchanges c v new r w) =
      let seen : a ≡ false = cc in
      rw (result, seen)
        (success c (ap judge (sym same) ∙ v) (rw (← same) new) refl (
          end
          ∙ w
          ∙ ap (exchanged db user_id auth_version old_jti old_hash next checked written c) same))
  commits s t a o same ran result end (faults e r f) = absurd (cc)

  undoes :
      (s t : State) (e : Error) (o : Result Bool × State)
      → view t ≡ view s
      → (body t).0 ≡ err e
      → o.0 ≡ err e
      → view o.1 ≡ view s
      → BodyEnds db user_id auth_version old_jti old_hash next checked written (view t) (body t)
      → RotationEnds (view s) (judge (view s)) (answer o)
  undoes s t e o same ran result end (refuses d v r) =
      let this : e ≡ sentinel d = cc in
      rw (result, this) (refusal d (ap judge (sym same) ∙ v) refl end)
  undoes s t e o same ran result end (revokes c v r w) = absurd (cc)
  undoes s t e o same ran result end (exchanges c v new r w) = absurd (cc)
  undoes s t e o same ran result end (faults d r f) =
      let this : e ≡ d = cc in rw (result, this) (fault d refl f end)

  settles :
      (s : State) (o : Result Bool × State)
      → Ends view body s o
      → RotationEnds (view s) (judge (view s)) (answer o)
  unfolding error_is
  settles s o (committed t a same ran result end) =
      commits s t a o same ran result end
        (rotate_body_ends db user_id auth_version old_jti old_hash next checked written t)
  settles s o (rolled_back t e same ran result end) =
      undoes s t e o same ran result end
        (rotate_body_ends db user_id auth_version old_jti old_hash next checked written t)
  settles s o (failed text result end) = rw result (fault _ refl refl end)

  -- The verdict on a whole request.
  abbrev pub request_verdict : Bool → Time → Tables → Verdict
  request_verdict initialized requested t =
      if not initialized
      then refused database_not_initialized
      else if is_bad_rotation user_id auth_version old_jti old_hash next requested
      then refused Sentinel.refresh_token_invalid
      else judge t

  -- A rotation ends as the verdict on the request and on the rows of the user and of the old token
  -- calls for. Refused: that error, and the tables are as before. Replayed: the replay error, and
  -- the user's tokens of the family are revoked. Good: no error, the new token stands in the
  -- family of the old one, which is revoked. Otherwise a failure of the database is reported and
  -- the tables are as before.
  pub rotate_refresh_token_ends :
      (initialized : Bool) (requested : Time) (s : State)
      → RotationEnds (view s) (request_verdict initialized requested (view s)) (
          rotate_refresh_token db initialized user_id auth_version old_jti old_hash
            (some next)
            requested
            checked
            written
            s)
  unfolding rotate_refresh_token
  rotate_refresh_token_ends false requested s = refusal database_not_initialized refl refl refl
  rotate_refresh_token_ends true requested s =
      elim (Bool-cases (is_bad_rotation user_id auth_version old_jti old_hash next requested)) [
        | inl bad ↦ rw bad (refusal Sentinel.refresh_token_invalid refl refl refl)
        | inr good ↦ rw good (settles s _ (db.transaction_lem Bool body s))
      ]
