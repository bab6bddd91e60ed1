-- ===== src/Service/Auth/Closed.antt =====
-- What it is for a family of refresh tokens to be closed, and which verdicts report a replay.
use go_user_system.Common.{
  String, Bool, true, false, ◌&&◌, ◌||◌, not, Option, none, some, ◌≡◌, ◌≢◌, inl, inr, refl, first,
  all, arith, all-update_if_selected, Bool-cases,
}
use go_user_system.Common.Int.{ℤ}
use go_user_system.Common.Text.{is_empty}
use go_user_system.Common.Time.{Time}
use go_user_system.Errors.{refresh_token_replay}
use go_user_system.Model.{User, RefreshToken, Reason, rotated}
use go_user_system.Database.{Database, Tables, visible}
use go_user_system.Dao.{has_id}
use go_user_system.Repository.{has_jti, in_family, is_unrevoked, mark_replaced, mark_revoked}
use go_user_system.Repository.Laws.{family_revoked}
use go_user_system.Service.Auth.{is_some, is_bad_rotation}
use go_user_system.Service.Auth.Rotation.{
  Verdict, refused, replayed, rotates, is_current, token_verdict, user_verdict, verdict,
}
use go_user_system.Service.Auth.Sessions.{request_verdict}

module _ (db : Database) (user_id : ℤ) (family_id : String) where
  -- A token is outside the user's family, or revoked.
  abbrev pub outside : RefreshToken → Bool
  outside r = not (in_family db user_id family_id r) || is_some r.revoked_at

  -- No token of the user's family is usable.
  abbrev pub IsClosed : Tables → Type 0
  IsClosed t = all outside t.tokens ≡ true

  or-true : (a : Bool) → (a || true) ≡ true
  or-true true = refl
  or-true false = refl

  pub family_revoked-IsClosed :
      (at : Time) (reason : Reason) (t : Tables)
      → IsClosed (family_revoked db user_id family_id at reason t)
  family_revoked-IsClosed at reason t =
      all-update_if_selected outside (λ r. in_family db user_id family_id r && is_unrevoked r)
        (mark_revoked at reason) t.tokens (λ r. or-true _) (λ r k. ground (arith, k))

token-ne-replay :
    (user_id : ℤ) (hash : String) (now : Time) (o : Option RefreshToken)
    → token_verdict user_id hash now o ≢ refused refresh_token_replay
token-ne-replay user_id hash now none h = cc
token-ne-replay user_id hash now (some c) h = ground arith

user-ne-replay :
    (version : ℤ) (o : Option User) (v : Verdict)
    → v ≢ refused refresh_token_replay
    → user_verdict version o v ≢ refused refresh_token_replay
user-ne-replay version none v n h = cc
user-ne-replay version (some u) v n h = elim (Bool-cases (is_current version u)) [
  | inl current ↦ n (rw current at h)
  | inr stale ↦ let e = rw stale at h in cc e
]

-- The replay error comes from a replay alone.
pub refused-ne-replay :
    (db : Database) (user_id version : ℤ) (jti hash : String) (next : RefreshToken)
    (checked written requested : Time) (initialized : Bool) (t : Tables)
    → request_verdict db user_id version jti hash next checked written initialized requested t
      ≢ refused refresh_token_replay
unfolding verdict
refused-ne-replay db user_id version jti hash next checked written requested false t h = cc
refused-ne-replay db user_id version jti hash next checked written requested true t h =
    elim (Bool-cases (is_bad_rotation user_id version jti hash next requested)) [
      | inl bad ↦ let e = rw bad at h in cc e
      | inr good ↦
          user-ne-replay version (first (visible (has_id user_id)) t.users)
            (token_verdict user_id hash checked (first (has_jti db jti) t.tokens))
            (token-ne-replay user_id hash checked (first (has_jti db jti) t.tokens)) (rw good at h)
    ]

-- A row that an exchange marked is judged as used again.
pub marked_verdict :
    (o : Option User) (user_id version : ℤ) (hash by : String) (now now' written : Time)
    (c : RefreshToken)
    → user_verdict version o (token_verdict user_id hash now (some c)) ≡ rotates c
    → is_empty c.family_id ≡ false
    → let m = mark_replaced written rotated (some by) c in
      user_verdict version o (token_verdict user_id hash now' (some m)) ≡ replayed m
marked_verdict o user_id version hash by now now' written c h k = ground arith
