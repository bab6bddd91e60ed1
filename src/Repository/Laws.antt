-- ===== src/Repository/Laws.antt =====
-- What each statement on the refresh tokens does to the tables.
use go_user_system.Common.{String, Bool, ◌&&◌, Option, update_if}
use go_user_system.Common.Int.{ℤ, eq_ℤ}
use go_user_system.Common.Time.{Time}
use go_user_system.Model.{RefreshToken, Reason}
use go_user_system.Result.{ok}
use go_user_system.Database.{Database, Tables, Refines, first_token_of, create_token_of}
use go_user_system.Database.Rules.{write-Acts}
use go_user_system.Repository.{
  is_unrevoked, mark_revoked, mark_replaced, has_jti, in_family, create, find_by_jti_for_update,
  revoke_by_jti, revoke_family, revoke_all_by_user_id,
}

abbrev pub with_tokens : (RefreshToken → Bool) → (RefreshToken → RefreshToken) → Tables → Tables
with_tokens p f t = record t { tokens = update_if p f t.tokens }

module _ (db : Database) where
  open db use {State, view, collates}

  abbrev pub replaced : String → Time → Reason → Option String → Tables → Tables
  replaced jti at reason by =
      with_tokens (λ r. has_jti db jti r && is_unrevoked r) (mark_replaced at reason by)

  abbrev pub family_revoked : ℤ → String → Time → Reason → Tables → Tables
  family_revoked user_id family_id at reason =
      with_tokens (λ r. in_family db user_id family_id r && is_unrevoked r) (mark_revoked at reason)

  abbrev pub all_revoked : ℤ → Time → Reason → Tables → Tables
  all_revoked user_id at reason =
      with_tokens (λ r. eq_ℤ r.user_id user_id && is_unrevoked r) (mark_revoked at reason)

  pub create_lem : (r : RefreshToken) → Refines view (create_token_of collates r) (create db r)
  unfolding create
  create_lem r = db.create_token_lem r

  pub find_by_jti_for_update_lem :
      (jti : String)
      → Refines view (first_token_of (has_jti db jti)) (find_by_jti_for_update db jti)
  unfolding find_by_jti_for_update
  find_by_jti_for_update_lem jti = db.first_token_lem (has_jti db jti)

  pub revoke_by_jti_lem :
      (jti : String) (at : Time) (reason : Reason) (by : Option String)
      → Refines view (λ t. (ok tt, replaced jti at reason by t)) (revoke_by_jti db jti at reason by)
  unfolding revoke_by_jti
  revoke_by_jti_lem jti at reason by s =
      let p : RefreshToken → Bool = λ r. has_jti db jti r && is_unrevoked r in
      let f : RefreshToken → RefreshToken = mark_replaced at reason by in
      write-Acts view s (db.update_tokens p f) (db.update_tokens_lem p f s)

  pub revoke_family_lem :
      (user_id : ℤ) (family_id : String) (at : Time) (reason : Reason)
      → Refines view
          (λ t. (ok tt, family_revoked user_id family_id at reason t))
          (revoke_family db user_id family_id at reason)
  unfolding revoke_family
  revoke_family_lem user_id family_id at reason s =
      let p : RefreshToken → Bool = λ r. in_family db user_id family_id r && is_unrevoked r in
      let f : RefreshToken → RefreshToken = mark_revoked at reason in
      write-Acts view s (db.update_tokens p f) (db.update_tokens_lem p f s)

  pub revoke_all_by_user_id_lem :
      (user_id : ℤ) (at : Time) (reason : Reason)
      → Refines view
          (λ t. (ok tt, all_revoked user_id at reason t))
          (revoke_all_by_user_id db user_id at reason)
  unfolding revoke_all_by_user_id
  revoke_all_by_user_id_lem user_id at reason s =
      let p : RefreshToken → Bool = λ r. eq_ℤ r.user_id user_id && is_unrevoked r in
      let f : RefreshToken → RefreshToken = mark_revoked at reason in
      write-Acts view s (db.update_tokens p f) (db.update_tokens_lem p f s)
