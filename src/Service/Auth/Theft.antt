-- ===== src/Service/Auth/Theft.antt =====
-- A refresh token that is used a second time, and the family of its session.
use go_user_system.Common.{
  String, Bool, true, false, ◌&&◌, some, ◌≡◌, refl, sym, ap, ◌∙◌, first, arith, first-sat,
  first-update_if, first-append,
}
use mathlib.Core.Path.{subst}
use go_user_system.Common.Int.{ℤ}
use go_user_system.Common.Text.{is_empty}
use go_user_system.Common.Time.{Time}
use go_user_system.Errors.{Error, sentinel, error_is, refresh_token_replay}
use go_user_system.Model.{RefreshToken, rotated, replay_detected}
use go_user_system.Result.{Result, ok, err}
use go_user_system.Database.{Database, Tables, visible}
use go_user_system.Dao.{has_id}
use go_user_system.Repository.{has_jti, is_unrevoked, mark_replaced}
use go_user_system.Service.Auth.{is_some, next_in_family, is_bad_rotation, rotate_refresh_token}
use go_user_system.Service.Promise.{IsFault}
use go_user_system.Service.Auth.Rotation.{refused, replayed, rotates, verdict, exchanged}
use go_user_system.Service.Auth.Sessions.{
  RotationEnds, refusal, replay, success, fault, rotate_refresh_token_ends, request_verdict,
}
use go_user_system.Service.Auth.Stored.{stored}
use go_user_system.Service.Auth.Spent.{verdict-rotates}
use go_user_system.Service.Auth.Calls.{request-rotates}
use go_user_system.Service.Auth.Closed.{
  IsClosed, family_revoked-IsClosed, refused-ne-replay, marked_verdict,
}

module _ (db : Database) (jti : String) where
  open db use {State, view, collates}

  -- After an exchange the old id selects the old row, marked.
  first-exchanged :
      (user_id version : ℤ) (hash : String) (next : RefreshToken) (checked written : Time)
      (t : Tables) (c : RefreshToken)
      → first (has_jti db jti) t.tokens ≡ some c
      → is_some c.revoked_at ≡ false
      → first
          (has_jti db jti)
          (exchanged db user_id version jti hash next checked written c t).tokens
        ≡ some (mark_replaced written rotated (some next.jti) c)
  unfolding exchanged
  first-exchanged user_id version hash next checked written t c found held =
      let p : RefreshToken → Bool = λ r. has_jti db jti r && is_unrevoked r in
      let f : RefreshToken → RefreshToken = mark_replaced written rotated (some next.jti) in
      let rows = (stored (next_in_family user_id c next) t).tokens in
      let kept : first (has_jti db jti) rows ≡ some c =
        first-append (has_jti db jti) t.tokens _ ∙ rw found in
      first-update_if (has_jti db jti) p f rows (λ r. refl)
      ∙ rw kept (ground (arith, first-sat (has_jti db jti) t.tokens c found))

  closes :
      (initialized : Bool) (user_id version : ℤ) (hash : String) (next : RefreshToken)
      (requested checked written : Time) (t : Tables) (o : Result (Unit {0}) × State)
      → RotationEnds db user_id version jti hash next checked written t
          (request_verdict db user_id version jti hash next checked written initialized requested t)
          o
      → o.0 ≡ err (sentinel refresh_token_replay)
      → (c : RefreshToken) × (request_verdict db user_id version jti hash next checked written
            initialized requested t
          ≡ replayed c)
        × IsClosed db user_id c.family_id (view o.1)
  unfolding error_is
  closes initialized user_id version hash next requested checked written t o (refusal e v r w) k =
      let this : e ≡ refresh_token_replay = cc in
      absurd (
        refused-ne-replay db user_id version jti hash next checked written requested initialized t
          (v ∙ ap refused this))
  closes initialized user_id version hash next requested checked written t o (replay c v r w) k = (
    c,
    v,
    subst (IsClosed db user_id c.family_id) (sym w)
        (family_revoked-IsClosed db user_id c.family_id checked replay_detected t),
  )
  closes initialized user_id version hash next requested checked written t o (success c v new r w)
        k =
      absurd (cc)
  closes initialized user_id version hash next requested checked written t o (fault e r f w) k =
      let this : e ≡ sentinel refresh_token_replay = cc in
      let impossible = rw this at f in cc impossible

  -- When a rotation reports a replay, the old token was on record as rotated away, and afterwards
  -- every token of the user in its family is revoked.
  pub replay_closes_family :
      (initialized : Bool) (user_id version : ℤ) (hash : String) (next : RefreshToken)
      (requested checked written : Time) (s : State)
      → let o =
          rotate_refresh_token db initialized user_id version jti hash
            (some next)
            requested
            checked
            written
            s in
        o.0 ≡ err (sentinel refresh_token_replay)
        → (c : RefreshToken) × (request_verdict db user_id version jti hash next checked written
              initialized requested
              (view s)
            ≡ replayed c)
          × IsClosed db user_id c.family_id (view o.1)
  replay_closes_family initialized user_id version hash next requested checked written s k =
      closes initialized user_id version hash next requested checked written (view s) _
        (rotate_refresh_token_ends db user_id version jti hash next checked written initialized
          requested s)
        k

  succeeded :
      (initialized : Bool) (user_id version : ℤ) (hash : String) (next : RefreshToken)
      (requested checked written : Time) (t : Tables) (o : Result (Unit {0}) × State)
      → RotationEnds db user_id version jti hash next checked written t
          (request_verdict db user_id version jti hash next checked written initialized requested t)
          o
      → o.0 ≡ ok tt
      → (c : RefreshToken) × (verdict db user_id version jti hash next checked written t
          ≡ rotates c)
        × (view o.1 ≡ exchanged db user_id version jti hash next checked written c t)
  succeeded initialized user_id version hash next requested checked written t o (refusal e v r w)
        k =
      absurd (cc)
  succeeded initialized user_id version hash next requested checked written t o (replay c v r w) k =
      absurd (cc)
  succeeded initialized user_id version hash next requested checked written t o
        (success c v new r w) k =
      (
        c,
        request-rotates db initialized user_id version jti hash next requested checked written t c
            v,
        w,
      )
  succeeded initialized user_id version hash next requested checked written t o (fault e r f w) k =
      absurd (cc)

  -- How the second use of a token ends: as a replay that closes the family, or as a failure of the
  -- database that changes nothing.
  pub data SecondUse (user_id : ℤ) (family_id : String) (t : Tables) (o : Result (Unit {0}) × State)
      : Type 0 where
    detected :
        o.0 ≡ err (sentinel refresh_token_replay)
        → IsClosed db user_id family_id (view o.1)
        → SecondUse user_id family_id t o
    broke : (e : Error) → o.0 ≡ err e → IsFault e → view o.1 ≡ t → SecondUse user_id family_id t o

  detects :
      (user_id version : ℤ) (hash : String) (next : RefreshToken) (checked written : Time)
      (t : Tables) (m : RefreshToken) (o : Result (Unit {0}) × State)
      → RotationEnds db user_id version jti hash next checked written t (replayed m) o
      → SecondUse user_id m.family_id t o
  detects user_id version hash next checked written t m o (refusal e v r w) = absurd (cc)
  detects user_id version hash next checked written t m o (replay c v r w) =
      let same : c ≡ m = cc in
      detected r (
        rw (← same) (
          subst (IsClosed db user_id c.family_id) (sym w)
            (family_revoked-IsClosed db user_id c.family_id checked replay_detected t)))
  detects user_id version hash next checked written t m o (success c v new r w) = absurd (cc)
  detects user_id version hash next checked written t m o (fault e r f w) = broke e r f w

  second_verdict :
      (user_id version : ℤ) (hash : String) (next next' : RefreshToken)
      (checked written checked' written' requested' : Time) (t u : Tables) (c : RefreshToken)
      → verdict db user_id version jti hash next checked written t ≡ rotates c
      → u ≡ exchanged db user_id version jti hash next checked written c t
      → is_empty c.family_id ≡ false
      → is_bad_rotation user_id version jti hash next' requested' ≡ false
      → request_verdict db user_id version jti hash next' checked' written' true requested' u
        ≡ replayed (mark_replaced written rotated (some next.jti) c)
  unfolding verdict exchanged
  second_verdict user_id version hash next next' checked written checked' written' requested' t u c
        v e family good =
      let (found, held) = verdict-rotates db jti user_id version hash next checked written t c v in
      let again = first-exchanged user_id version hash next checked written t c found held in
      rw (good, e, again)
        (marked_verdict (first (visible (has_id user_id)) t.users) user_id version hash next.jti
          checked checked' written c (rw found at v) family)

  -- Let a rotation succeed for a token whose row has a family. Whoever then presents the same
  -- token for the same session once more, with a request that is well formed, is told of the
  -- replay, and every token of the user in that family is revoked, the one just issued included;
  -- unless the database fails, which is reported and changes nothing.
  pub SecondUse-detected :
      (initialized : Bool) (user_id version : ℤ) (hash : String) (next next' : RefreshToken)
      (requested checked written requested' checked' written' : Time) (c : RefreshToken) (s : State)
      → first (has_jti db jti) (view s).tokens ≡ some c
      → is_empty c.family_id ≡ false
      → is_bad_rotation user_id version jti hash next' requested' ≡ false
      → let o =
          rotate_refresh_token db initialized user_id version jti hash
            (some next)
            requested
            checked
            written
            s in
        o.0 ≡ ok tt
        → SecondUse user_id c.family_id (view o.1) (
            rotate_refresh_token db true user_id version jti hash
              (some next')
              requested'
              checked'
              written'
              o.1)
  SecondUse-detected initialized user_id version hash next next' requested checked written
        requested' checked' written' c s found family good k =
      let o =
        rotate_refresh_token db initialized user_id version jti hash (some next) requested checked
          written s in
      let (d, v, w) =
        succeeded initialized user_id version hash next requested checked written (view s) o
          (rotate_refresh_token_ends db user_id version jti hash next checked written initialized
            requested s)
          k in
      let found' =
        (verdict-rotates db jti user_id version hash next checked written (view s) d v).0 in
      let same : c ≡ d = cc (found, found') in
      let family' : is_empty d.family_id ≡ false = rw (← same) family in
      let m = mark_replaced written rotated (some next.jti) d in
      let judged =
        second_verdict user_id version hash next next' checked written checked' written' requested'
          (view s) (view o.1) d v w family' good in
      rw same (
        detects user_id version hash next' checked' written' (view o.1) m _ (
          subst
            (λ x. RotationEnds db user_id version jti hash next' checked' written' (view o.1) x (
              rotate_refresh_token db true user_id version jti hash (some next') requested' checked'
                written' o.1))
            judged
            (rotate_refresh_token_ends db user_id version jti hash next' checked' written' true
              requested' o.1)))
