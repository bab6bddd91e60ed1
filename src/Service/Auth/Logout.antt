-- ===== src/Service/Auth/Logout.antt =====
-- `RevokeRefreshToken`: how it ends, as a promise on the row of the token.
use go_user_system.Common.{
  String, Bool, true, false, ◌&&◌, ◌||◌, not, Option, none, some, if◌then◌else◌, str_eq, ◌≡◌, refl,
  sym, ap, ◌∙◌, first, not-or, Bool-cases, Option-cases, inl, inr,
}
use go_user_system.Common.Int.{ℤ, pos, leb_ℤ, eq_ℤ}
use go_user_system.Common.Text.{is_empty}
use go_user_system.Common.Time.{Time}
use go_user_system.Errors.{Error, sentinel, error_is, database_not_initialized, Sentinel}
use go_user_system.Model.{RefreshToken, logout}
use go_user_system.Result.{Result, ok, err}
use go_user_system.Database.{Database, Tables, done, broken, Ends, committed, rolled_back, failed}
use go_user_system.Repository.{has_jti, find_by_jti_for_update}
use go_user_system.Repository.Laws.{replaced, find_by_jti_for_update_lem, revoke_by_jti_lem}
use go_user_system.Service.Auth.{is_some, revoke_body, revoke_refresh_token}
use go_user_system.Service.Promise.{IsFault}

pub data Verdict : Type 0 where
  refused : Sentinel → Verdict
  revoked_before : Verdict
  revokes : Verdict

module _ (db : Database) (user_id : ℤ) (jti token_hash : String) (now : Time) where
  open db use {State, view}

  abbrev pub row_verdict : Option RefreshToken → Verdict
  row_verdict none = refused Sentinel.refresh_token_invalid
  row_verdict (some c) =
      if eq_ℤ c.user_id user_id && str_eq c.token_hash token_hash
      then (if is_some c.revoked_at then revoked_before else revokes)
      else refused Sentinel.refresh_token_invalid

  abbrev pub verdict : Tables → Verdict
  verdict t = row_verdict (first (has_jti db jti) t.tokens)

  pub data LogoutEnds (t : Tables) (v : Verdict) (o : Result (Unit {0}) × State) : Type 0 where
    refusal :
        (e : Sentinel) → v ≡ refused e → o.0 ≡ err (sentinel e) → view o.1 ≡ t → LogoutEnds t v o
    nothing : v ≡ revoked_before → o.0 ≡ ok tt → view o.1 ≡ t → LogoutEnds t v o
    success :
        v ≡ revokes → o.0 ≡ ok tt → view o.1 ≡ replaced db jti now logout none t → LogoutEnds t v o
    fault : (e : Error) → o.0 ≡ err e → IsFault e → view o.1 ≡ t → LogoutEnds t v o

  body_ends :
      (s : State)
      → LogoutEnds (view s) (verdict (view s)) (revoke_body db user_id jti token_hash now s)
  unfolding revoke_body error_is
  body_ends s = elim (find_by_jti_for_update_lem db jti s) [
    | broken text p q ↦ rw p (fault _ refl refl q)
    | done p q ↦ elim (Option-cases (first (has_jti db jti) (view s).tokens)) [
      | inl missing ↦ rw (p, missing) (refusal Sentinel.refresh_token_invalid refl refl q)
      | inr (c, found) ↦
          let flip = not-or (eq_ℤ c.user_id user_id) (str_eq c.token_hash token_hash) in
          elim (Bool-cases (eq_ℤ c.user_id user_id && str_eq c.token_hash token_hash)) [
            | inr foreign ↦
                rw (p, found, flip, foreign) (refusal Sentinel.refresh_token_invalid refl refl q)
            | inl owned ↦ elim (Bool-cases (is_some c.revoked_at)) [
              | inl before ↦ rw (p, found, flip, owned, before) (nothing refl refl q)
              | inr held ↦
                  elim (revoke_by_jti_lem db jti now logout none
                    (find_by_jti_for_update db jti s).1) [
                      | broken text p' q' ↦
                          rw (p, found, flip, owned, held, p') (fault _ refl refl (q' ∙ q))
                      | done p' q' ↦
                          rw (p, found, flip, owned, held, p')
                            (success refl refl (q' ∙ ap (replaced db jti now logout none) q))
                    ]
            ]
          ]
    ]
  ]

  commits :
      (s t : State) (a : Unit {0}) (o : Result (Unit {0}) × State)
      → view t ≡ view s
      → (revoke_body db user_id jti token_hash now t).0 ≡ ok a
      → o.0 ≡ ok a
      → view o.1 ≡ view (revoke_body db user_id jti token_hash now t).1
      → LogoutEnds (view t) (verdict (view t)) (revoke_body db user_id jti token_hash now t)
      → LogoutEnds (view s) (verdict (view s)) o
  commits s t a o same ran result end (refusal e v r w) = absurd (cc)
  commits s t a o same ran result end (nothing v r w) =
      nothing (ap verdict (sym same) ∙ v) result (end ∙ w ∙ same)
  commits s t a o same ran result end (success v r w) =
      success (ap verdict (sym same) ∙ v) result
        (end ∙ w ∙ ap (replaced db jti now logout none) same)
  commits s t a o same ran result end (fault e r f w) = absurd (cc)

  undoes :
      (s t : State) (e : Error) (o : Result (Unit {0}) × State)
      → view t ≡ view s
      → (revoke_body db user_id jti token_hash now t).0 ≡ err e
      → o.0 ≡ err e
      → view o.1 ≡ view s
      → LogoutEnds (view t) (verdict (view t)) (revoke_body db user_id jti token_hash now t)
      → LogoutEnds (view s) (verdict (view s)) o
  undoes s t e o same ran result end (refusal d v r w) =
      refusal d (ap verdict (sym same) ∙ v) (result ∙ sym ran ∙ r) end
  undoes s t e o same ran result end (nothing v r w) = absurd (cc)
  undoes s t e o same ran result end (success v r w) = absurd (cc)
  undoes s t e o same ran result end (fault d r f w) = fault d (result ∙ sym ran ∙ r) f end

  settles :
      (s : State) (o : Result (Unit {0}) × State)
      → Ends view (revoke_body db user_id jti token_hash now) s o
      → LogoutEnds (view s) (verdict (view s)) o
  unfolding error_is
  settles s o (committed t a same ran result end) =
      commits s t a o same ran result end (body_ends t)
  settles s o (rolled_back t e same ran result end) =
      undoes s t e o same ran result end (body_ends t)
  settles s o (failed text result end) = fault _ result refl end

  abbrev pub request_verdict : Bool → Tables → Verdict
  request_verdict initialized t =
      if not initialized
      then refused database_not_initialized
      else if leb_ℤ user_id (pos 0) || is_empty jti || is_empty token_hash
      then refused Sentinel.refresh_token_invalid
      else verdict t

  -- A logout ends as the verdict on the request and on the token's row calls for. Refused: that
  -- error, and the tables are as before. Revoked before: no error and no change. Otherwise the
  -- token is revoked, or a failure of the database is reported and the tables are as before.
  pub revoke_refresh_token_ends :
      (initialized : Bool) (s : State)
      → LogoutEnds
          (view s)
          (request_verdict initialized (view s))
          (revoke_refresh_token db initialized user_id jti token_hash now s)
  unfolding revoke_refresh_token
  revoke_refresh_token_ends false s = refusal database_not_initialized refl refl refl
  revoke_refresh_token_ends true s =
      elim (Bool-cases (leb_ℤ user_id (pos 0) || is_empty jti || is_empty token_hash)) [
        | inl bad ↦ rw bad (refusal Sentinel.refresh_token_invalid refl refl refl)
        | inr good ↦ rw good (settles s _ (db.transaction_lem (Unit {0}) _ s))
      ]
