-- ===== src/Service/Auth/Rotation.antt =====
-- What a rotation of a refresh token promises: a verdict on the tables of before, and the tables
-- of after for each verdict. `RotateRefreshToken` keeps the promise, or reports a failure of the
-- database and changes nothing.
use go_user_system.Common.{
  String, Bool, true, false, ◌&&◌, not, Option, none, some, if◌then◌else◌, str_eq, ◌≡◌, refl, ap,
  ◌∙◌, first, any, [], ◌∷◌, ◌++◌, not-or, Bool-cases, Option-cases, inl, inr,
}
use go_user_system.Common.Int.{ℤ, pos, eq_ℤ, ◌+ℤ◌}
use go_user_system.Common.Text.{is_empty}
use go_user_system.Common.Time.{Time, after}
use go_user_system.Errors.{
  Error, sentinel, error_is, refresh_token_expired, refresh_token_revoked, Sentinel,
}
use go_user_system.Model.{User, RefreshToken, rotated, replay_detected, user_status_active}
use go_user_system.Result.{Result, ok, err}
use go_user_system.Database.{Database, Tables, done, broken, clashes, visible}
use go_user_system.Dao.{has_id}
use go_user_system.Dao.Laws.{get_user_by_id_for_update_lem}
use go_user_system.Repository.{create, has_jti}
use go_user_system.Repository.Laws.{
  replaced, family_revoked, create_lem, find_by_jti_for_update_lem, revoke_by_jti_lem,
  revoke_family_lem,
}
use go_user_system.Service.Promise.{IsFault}
use go_user_system.Service.Auth.{
  is_rotated, is_some, next_in_family, reuse, exchange, present, present_token, rotate_body,
}

pub data Verdict : Type 0 where
  refused : Sentinel → Verdict
  replayed : RefreshToken → Verdict
  rotates : RefreshToken → Verdict

-- A token that its owner presents: revoked by a rotation, revoked in another way, expired, or good.
abbrev pub standing : Time → RefreshToken → Verdict
standing now c =
    if is_some c.revoked_at
    then (if is_rotated c.revoked_reason && not (is_empty c.family_id)
        then replayed c
        else refused refresh_token_revoked)
    else if after c.expires_at now
    then rotates c
    else refused refresh_token_expired

abbrev pub token_verdict : ℤ → String → Time → Option RefreshToken → Verdict
token_verdict user_id old_hash now none = refused Sentinel.refresh_token_invalid
token_verdict user_id old_hash now (some c) =
    if eq_ℤ c.user_id user_id && str_eq c.token_hash old_hash
    then standing now c
    else refused Sentinel.refresh_token_invalid

abbrev pub is_current : ℤ → User → Bool
is_current auth_version u = eq_ℤ u.status user_status_active && eq_ℤ u.auth_version auth_version

abbrev pub user_verdict : ℤ → Option User → Verdict → Verdict
user_verdict auth_version none v = refused Sentinel.refresh_token_invalid
user_verdict auth_version (some u) v =
    if is_current auth_version u then v else refused Sentinel.refresh_token_invalid

module _ (db : Database) (user_id auth_version : ℤ) (old_jti old_hash : String)
    (next : RefreshToken) (checked written : Time) where
  open db use {State, view, collates}

  -- The verdict on the rows that the user's id and the token's id select.
  unfoldable pub verdict : Tables → Verdict
  verdict t =
      user_verdict auth_version (first (visible (has_id user_id)) t.users)
        (token_verdict user_id old_hash checked (first (has_jti db old_jti) t.tokens))

  -- The new token stands last, in the family of the old one, and the old one is revoked.
  unfoldable pub exchanged : RefreshToken → Tables → Tables
  exchanged c t = replaced db old_jti written rotated (some next.jti) (record t {
    tokens = t.tokens ++ record (next_in_family user_id c next) { id = t.next_token_id } ∷ [];
    next_token_id = t.next_token_id +ℤ pos 1;
  })

  pub data BodyEnds (t : Tables) (o : Result Bool × State) : Type 0 where
    refuses : (e : Sentinel) → verdict t ≡ refused e → o.0 ≡ err (sentinel e) → BodyEnds t o
    revokes :
        (c : RefreshToken)
        → verdict t ≡ replayed c
        → o.0 ≡ ok true
        → view o.1 ≡ family_revoked db user_id c.family_id checked replay_detected t
        → BodyEnds t o
    exchanges :
        (c : RefreshToken)
        → verdict t ≡ rotates c
        → any (clashes collates next) t.tokens ≡ false
        → o.0 ≡ ok false
        → view o.1 ≡ exchanged c t
        → BodyEnds t o
    faults : (e : Error) → o.0 ≡ err e → IsFault e → BodyEnds t o

  exchange_ends :
      (t : Tables) (c : RefreshToken) (s : State)
      → view s ≡ t
      → verdict t ≡ rotates c
      → BodyEnds t (exchange db user_id old_jti c next written s)
  unfolding exchange exchanged error_is
  exchange_ends t c s same v =
      let row = next_in_family user_id c next in
      elim (create_lem db row s) [
        | broken text p q ↦ rw p (faults _ refl refl)
        | done p q ↦ elim (Bool-cases (any (clashes collates row) (view s).tokens)) [
          | inl clash ↦ rw (p, clash) (faults _ refl refl)
          | inr fresh ↦
              let s1 = (create db row s).1 in
              elim (revoke_by_jti_lem db old_jti written rotated (some next.jti) s1) [
                | broken text p' q' ↦ rw (p, fresh, p') (faults _ refl refl)
                | done p' q' ↦
                    rw (p, fresh, p')
                      (exchanges c v (rw (← same) fresh) refl (
                        q'
                        ∙ ap (replaced db old_jti written rotated (some next.jti))
                            (q ∙ rw (fresh, same))))
              ]
        ]
      ]

  reuse_ends :
      (t : Tables) (c : RefreshToken) (s : State)
      → view s ≡ t
      → is_some c.revoked_at ≡ true
      → verdict t ≡ standing checked c
      → BodyEnds t (reuse db user_id c checked s)
  unfolding reuse error_is
  reuse_ends t c s same revoked v =
      elim (Bool-cases (is_rotated c.revoked_reason && not (is_empty c.family_id))) [
        | inl again ↦ elim (revoke_family_lem db user_id c.family_id checked replay_detected s) [
          | broken text p q ↦ rw (again, p) (faults _ refl refl)
          | done p q ↦
              rw (again, p)
                (revokes c (v ∙ rw (revoked, again)) refl
                  (q ∙ ap (family_revoked db user_id c.family_id checked replay_detected) same))
        ]
        | inr other ↦ rw other (refuses refresh_token_revoked (v ∙ rw (revoked, other)) refl)
      ]

  standing_ends :
      (t : Tables) (c : RefreshToken) (s : State)
      → view s ≡ t
      → verdict t ≡ standing checked c
      → BodyEnds t (present db user_id old_jti c next checked written s)
  unfolding present
  standing_ends t c s same v = elim (Bool-cases (is_some c.revoked_at)) [
    | inl revoked ↦ rw revoked (reuse_ends t c s same revoked v)
    | inr held ↦ elim (Bool-cases (after c.expires_at checked)) [
      | inl good ↦ rw (held, good) (exchange_ends t c s same (v ∙ rw (held, good)))
      | inr late ↦ rw (held, late) (refuses refresh_token_expired (v ∙ rw (held, late)) refl)
    ]
  ]

  token_ends :
      (t : Tables) (u : User) (s : State)
      → view s ≡ t
      → verdict t ≡ token_verdict user_id old_hash checked (first (has_jti db old_jti) t.tokens)
      → BodyEnds t (present_token db user_id old_jti old_hash next checked written s)
  unfolding present_token error_is
  token_ends t u s same v = elim (find_by_jti_for_update_lem db old_jti s) [
    | broken text p q ↦ rw p (faults _ refl refl)
    | done p q ↦
        let p' = rw same at p in
        elim (Option-cases (first (has_jti db old_jti) t.tokens)) [
          | inl missing ↦
              rw (p', missing) (refuses Sentinel.refresh_token_invalid (v ∙ rw missing) refl)
          | inr (c, found) ↦
              elim (Bool-cases (eq_ℤ c.user_id user_id && str_eq c.token_hash old_hash)) [
                | inl owned ↦
                    rw
                      (
                        p',
                        found,
                        not-or (eq_ℤ c.user_id user_id) (str_eq c.token_hash old_hash),
                        owned,
                      )
                      (standing_ends t c _ (q ∙ same) (v ∙ rw (found, owned)))
                | inr foreign ↦
                    rw
                      (
                        p',
                        found,
                        not-or (eq_ℤ c.user_id user_id) (str_eq c.token_hash old_hash),
                        foreign,
                      )
                      (refuses Sentinel.refresh_token_invalid (v ∙ rw (found, foreign)) refl)
              ]
        ]
  ]

  -- Each end of the function that the transaction runs is the one that the verdict calls for.
  pub rotate_body_ends :
      (s : State)
      → BodyEnds
          (view s)
          (rotate_body db user_id auth_version old_jti old_hash next checked written s)
  unfolding rotate_body verdict error_is
  rotate_body_ends s = elim (get_user_by_id_for_update_lem db user_id s) [
    | broken text p q ↦ rw p (faults _ refl refl)
    | done p q ↦ elim (Option-cases (first (visible (has_id user_id)) (view s).users)) [
      | inl missing ↦ rw (p, missing) (refuses Sentinel.refresh_token_invalid (rw missing) refl)
      | inr (u, found) ↦ elim (Bool-cases (is_current auth_version u)) [
        | inl current ↦
            rw
              (
                p,
                found,
                not-or (eq_ℤ u.status user_status_active) (eq_ℤ u.auth_version auth_version),
                current,
              )
              (token_ends (view s) u _ q (rw (found, current)))
        | inr stale ↦
            rw
              (
                p,
                found,
                not-or (eq_ℤ u.status user_status_active) (eq_ℤ u.auth_version auth_version),
                stale,
              )
              (refuses Sentinel.refresh_token_invalid (rw (found, stale)) refl)
      ]
    ]
  ]
