-- ===== src/Service/Auth/Spent.antt =====
-- What it is for a refresh token to be spent, and what each change of the tables does to that.
use go_user_system.Common.{
  String, Bool, true, false, ◌&&◌, ◌||◌, not, Option, some, ◌≡◌, ◌≢◌, refl, ap, ◌∙◌, first, any,
  all, List, [], ◌∷◌, arith, Option-cases, inl, inr, any-update_if, all-update_if,
  all-update_if_selected, any-append, all-append, first-all, any-first,
}
use go_user_system.Common.Int.{ℤ, eq_ℤ}
use go_user_system.Common.Time.{Time}
use go_user_system.Errors.{Sentinel}
use go_user_system.Model.{User, RefreshToken, Reason, rotated}
use go_user_system.Database.{Database, Tables, clashes, visible}
use go_user_system.Dao.{has_id}
use go_user_system.Repository.{has_jti, in_family, is_unrevoked, mark_replaced, mark_revoked}
use go_user_system.Repository.Laws.{with_tokens, replaced, family_revoked, all_revoked}
use go_user_system.Service.Auth.{is_some, next_in_family}
use go_user_system.Service.Auth.Rotation.{
  refused, rotates, token_verdict, user_verdict, verdict, exchanged,
}
use go_user_system.Service.Auth.Stored.{stored}

or-true : (a : Bool) → (a || true) ≡ true
or-true true = refl
or-true false = refl

none-refused :
    (o : Option User) (auth_version : ℤ) (c : RefreshToken)
    → user_verdict auth_version o (refused Sentinel.refresh_token_invalid) ≢ rotates c
none-refused o auth_version c h = ground arith

standing-rotates :
    (o : Option User) (auth_version user_id : ℤ) (old_hash : String) (now : Time)
    (d c : RefreshToken)
    → user_verdict auth_version o (token_verdict user_id old_hash now (some d)) ≡ rotates c
    → (d ≡ c) × (is_some d.revoked_at ≡ false)
standing-rotates o auth_version user_id old_hash now d c h = ground arith

module _ (db : Database) (jti : String) where
  open db use {State, view, collates, collates_sym, collates_trans}

  abbrev pub shut : RefreshToken → Bool
  shut r = not (has_jti db jti r) || is_some r.revoked_at

  -- A row has the id, and every such row is revoked.
  pub record IsSpent (t : Tables) : Type 0 where
    pub present : any (has_jti db jti) t.tokens ≡ true
    pub all_shut : all shut t.tokens ≡ true

  -- A change that keeps the id and leaves the row revoked.
  with_tokens-IsSpent :
      (p : RefreshToken → Bool) (f : RefreshToken → RefreshToken) (t : Tables)
      → ((r : RefreshToken) → has_jti db jti (f r) ≡ has_jti db jti r)
      → ((r : RefreshToken) → is_some (f r).revoked_at ≡ true)
      → IsSpent t
      → IsSpent (with_tokens p f t)
  with_tokens-IsSpent p f t keeps revokes h = record {
    present = any-update_if (has_jti db jti) p f t.tokens keeps ∙ h.present;
    all_shut = all-update_if shut p f t.tokens (λ r. rw (revokes r) (or-true _)) h.all_shut;
  }

  pub replaced-IsSpent :
      (other : String) (at : Time) (reason : Reason) (by : Option String) (t : Tables)
      → IsSpent t
      → IsSpent (replaced db other at reason by t)
  replaced-IsSpent other at reason by t =
      with_tokens-IsSpent (λ r. has_jti db other r && is_unrevoked r) (mark_replaced at reason by) t
        (λ r. refl) (λ r. refl)

  pub family_revoked-IsSpent :
      (user_id : ℤ) (family_id : String) (at : Time) (reason : Reason) (t : Tables)
      → IsSpent t
      → IsSpent (family_revoked db user_id family_id at reason t)
  family_revoked-IsSpent user_id family_id at reason t =
      with_tokens-IsSpent (λ r. in_family db user_id family_id r && is_unrevoked r)
        (mark_revoked at reason) t (λ r. refl) (λ r. refl)

  pub all_revoked-IsSpent :
      (user_id : ℤ) (at : Time) (reason : Reason) (t : Tables)
      → IsSpent t
      → IsSpent (all_revoked db user_id at reason t)
  all_revoked-IsSpent user_id at reason t =
      with_tokens-IsSpent (λ r. eq_ℤ r.user_id user_id && is_unrevoked r) (mark_revoked at reason) t
        (λ r. refl) (λ r. refl)

  no_clash :
      (row : RefreshToken) (rows : List RefreshToken)
      → any (has_jti db jti) rows ≡ true
      → any (clashes collates row) rows ≡ false
      → has_jti db jti row ≡ false
  no_clash row [] h k = cc
  no_clash row (q ∷ rows) h k =
      ground (arith, collates_sym row.jti jti, collates_trans q.jti jti row.jti, no_clash row rows)

  pub stored-IsSpent :
      (row : RefreshToken) (t : Tables)
      → any (clashes collates row) t.tokens ≡ false
      → IsSpent t
      → IsSpent (stored row t)
  stored-IsSpent row t new h =
      let other : has_jti db jti row ≡ false = no_clash row t.tokens h.present new in
      record {
        present = any-append (has_jti db jti) t.tokens _ ∙ rw h.present;
        all_shut = all-append shut t.tokens _ ∙ rw (h.all_shut, other);
      }

  -- The verdict calls for an exchange only for a row that is not revoked.
  pub verdict-rotates :
      (user_id auth_version : ℤ) (old_hash : String) (next : RefreshToken) (checked written : Time)
      (t : Tables) (c : RefreshToken)
      → verdict db user_id auth_version jti old_hash next checked written t ≡ rotates c
      → (first (has_jti db jti) t.tokens ≡ some c) × (is_some c.revoked_at ≡ false)
  unfolding verdict
  verdict-rotates user_id auth_version old_hash next checked written t c h =
      elim (Option-cases (first (has_jti db jti) t.tokens)) [
        | inl missing ↦ absurd (
            none-refused (first (visible (has_id user_id)) t.users) auth_version c
              (rw missing at h))
        | inr (d, found) ↦
            let same =
              standing-rotates (first (visible (has_id user_id)) t.users) auth_version user_id
                old_hash checked d c (rw found at h) in
            (found ∙ ap some same.0, rw (← same.0) same.1)
      ]

  pub spent-ne-rotates :
      (user_id auth_version : ℤ) (old_hash : String) (next : RefreshToken) (checked written : Time)
      (t : Tables) (c : RefreshToken)
      → IsSpent t
      → verdict db user_id auth_version jti old_hash next checked written t ≢ rotates c
  spent-ne-rotates user_id auth_version old_hash next checked written t c h v =
      let (found, held) =
        verdict-rotates user_id auth_version old_hash next checked written t c v in
      let revoked =
        first-all (has_jti db jti) (λ r. is_some r.revoked_at) t.tokens c h.all_shut found in
      cc (held, revoked)

  pub exchanged-IsSpent :
      (user_id auth_version : ℤ) (old_jti old_hash : String) (next : RefreshToken)
      (checked written : Time) (t : Tables) (c : RefreshToken)
      → any (clashes collates next) t.tokens ≡ false
      → IsSpent t
      → IsSpent (exchanged db user_id auth_version old_jti old_hash next checked written c t)
  unfolding exchanged
  exchanged-IsSpent user_id auth_version old_jti old_hash next checked written t c new h =
      let row = next_in_family user_id c next in
      replaced-IsSpent old_jti written rotated (some next.jti) (stored row t)
        (stored-IsSpent row t new h)

  -- An exchange spends the token that was presented.
  -- A revocation of the one unrevoked row of an id.
  pub replaced-spends :
      (at : Time) (reason : Reason) (by : Option String) (t : Tables) (c : RefreshToken)
      → first (has_jti db jti) t.tokens ≡ some c
      → IsSpent (replaced db jti at reason by t)
  replaced-spends at reason by t c found =
      let p : RefreshToken → Bool = λ r. has_jti db jti r && is_unrevoked r in
      let f : RefreshToken → RefreshToken = mark_replaced at reason by in
      record {
        present =
            any-update_if (has_jti db jti) p f t.tokens (λ r. refl)
            ∙ any-first (has_jti db jti) t.tokens c found;
        all_shut =
            all-update_if_selected shut p f t.tokens (λ r. or-true _) (λ r k. ground (arith, k));
      }

  pub exchanged-spends :
      (user_id auth_version : ℤ) (old_hash : String) (next : RefreshToken) (checked written : Time)
      (t : Tables) (c : RefreshToken)
      → first (has_jti db jti) t.tokens ≡ some c
      → IsSpent (exchanged db user_id auth_version jti old_hash next checked written c t)
  unfolding exchanged
  exchanged-spends user_id auth_version old_hash next checked written t c found =
      let p : RefreshToken → Bool = λ r. has_jti db jti r && is_unrevoked r in
      let f : RefreshToken → RefreshToken = mark_replaced written rotated (some next.jti) in
      let rows = (stored (next_in_family user_id c next) t).tokens in
      record {
        present =
            any-update_if (has_jti db jti) p f rows (λ r. refl)
            ∙ any-append (has_jti db jti) t.tokens _
            ∙ rw (any-first (has_jti db jti) t.tokens c found);
        all_shut = all-update_if_selected shut p f rows (λ r. or-true _) (λ r k. ground (arith, k));
      }
