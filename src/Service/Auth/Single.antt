-- ===== src/Service/Auth/Single.antt =====
-- How many refresh tokens of a family are in force while calls on the session service come and go.
use go_user_system.Common.{
  ◌≤◌, arith, String, Bool, true, false, ◌&&◌, not, some, ◌≡◌, refl, ◌∙◌, first, any, all, count_if,
  update_if, List, [], ◌∷◌, ◌++◌, Bool-cases, inl, inr, all-append, first-append, count_if-append,
  count_if-update_if, count_if-update_if_less, all-update_if_kept, all-first, first-sat,
}
use go_user_system.Common.Int.{ℤ, eq_ℤ}
use go_user_system.Common.Text.{is_empty}
use go_user_system.Common.Time.{Time}
use go_user_system.Model.{RefreshToken, rotated}
use go_user_system.Database.{Database, Tables, clashes}
use go_user_system.Repository.{has_jti, in_family, is_unrevoked, mark_replaced, mark_revoked}
use go_user_system.Repository.Laws.{with_tokens}
use go_user_system.Service.Auth.{is_some, next_in_family}
use go_user_system.Service.Auth.Rotation.{exchanged}
use go_user_system.Service.Auth.Stored.{stored, is_bad_token}
use go_user_system.Service.Auth.Calls.{Call, stores_only, run, IsKept, run-keeps}

module _ (db : Database) (family_id : String) where
  open db use {State, view, collates}

  -- A token that belongs to the family and is not revoked.
  abbrev pub is_live : RefreshToken → Bool
  is_live r = collates r.family_id family_id && is_unrevoked r

  abbrev pub has_family : RefreshToken → Bool
  has_family r = not (is_empty r.family_id)

  -- Every token has a family, and at most one of this family is in force.
  pub record IsSingle (t : Tables) : Type 0 where
    pub filled : all has_family t.tokens ≡ true
    pub few : count_if is_live t.tokens ≤ 1

  abbrev pub is_elsewhere : RefreshToken → Bool
  is_elsewhere token = not (collates token.family_id family_id)

  -- A change that keeps the family and revokes.
  with_tokens-IsSingle :
      (p : RefreshToken → Bool) (f : RefreshToken → RefreshToken) (t : Tables)
      → ((r : RefreshToken) → has_family (f r) ≡ has_family r)
      → ((r : RefreshToken) → is_live (f r) ≡ false)
      → IsSingle t
      → IsSingle (with_tokens p f t)
  with_tokens-IsSingle p f t keeps revokes h =
      let less = count_if-update_if is_live p f t.tokens revokes in
      record {
        filled = all-update_if_kept has_family p f t.tokens keeps h.filled;
        few = omega (arith, less, h.few);
      }

  stored-IsSingle :
      (token : RefreshToken) (t : Tables)
      → is_elsewhere token ≡ true
      → is_bad_token token ≡ false
      → IsSingle t
      → IsSingle (stored token t)
  stored-IsSingle token t other good h =
      let own : has_family token ≡ true = ground arith in
      let out : is_live token ≡ false = ground arith in
      record {
        filled = all-append has_family t.tokens _ ∙ rw (h.filled, own) refl;
        few = rw (count_if-append is_live t.tokens _, out) (omega (arith, h.few));
      }

  one_more : (x : RefreshToken) → count_if is_live (x ∷ []) ≤ 1
  one_more x = ground arith

  -- The new token joins the family of the current one, which is revoked in the same step.
  exchanged-few :
      (q : RefreshToken → Bool) (f : RefreshToken → RefreshToken) (g : RefreshToken → Bool)
      (xs : List RefreshToken) (c row : RefreshToken)
      → ((r : RefreshToken) → is_live (f r) ≡ false)
      → first g xs ≡ some c
      → q c ≡ true
      → is_unrevoked c ≡ true
      → row.family_id ≡ c.family_id
      → count_if is_live (update_if q f (xs ++ row ∷ [])) ≤ count_if is_live xs
  exchanged-few q f g xs c row revokes found hit held family =
      let sum = count_if-append is_live xs (row ∷ []) in
      elim (Bool-cases (is_live c)) [
        | inl live ↦
            let found' : first g (xs ++ row ∷ []) ≡ some c =
              first-append g xs (row ∷ []) ∙ rw found refl in
            let less =
              count_if-update_if_less is_live q f g (xs ++ row ∷ []) c revokes found' hit live in
            omega (arith, less, sum, one_more row)
        | inr dead ↦
            let out : collates c.family_id family_id ≡ false = ground arith in
            let none_more : count_if is_live (row ∷ []) ≡ 0 = rw (family, out) refl in
            let less = count_if-update_if is_live q f (xs ++ row ∷ []) revokes in
            omega (arith, less, sum, none_more)
      ]

  exchanged-IsSingle :
      (user_id version : ℤ) (old hash : String) (next : RefreshToken) (checked written : Time)
      (t : Tables) (c : RefreshToken)
      → first (has_jti db old) t.tokens ≡ some c
      → is_some c.revoked_at ≡ false
      → any (clashes collates next) t.tokens ≡ false
      → IsSingle t
      → IsSingle (exchanged db user_id version old hash next checked written c t)
  unfolding exchanged
  exchanged-IsSingle user_id version old hash next checked written t c found held new h =
      let row = next_in_family user_id c next in
      let q : RefreshToken → Bool = λ r. has_jti db old r && is_unrevoked r in
      let f : RefreshToken → RefreshToken = mark_replaced written rotated (some next.jti) in
      let stored_row : RefreshToken = record row { id = t.next_token_id } in
      let own : has_family c ≡ true =
        all-first has_family (has_jti db old) t.tokens c h.filled found in
      let family : row.family_id ≡ c.family_id = ground arith in
      let good : has_family row ≡ true = rw family own in
      let unrevoked : is_unrevoked c ≡ true = ground arith in
      let hit : q c ≡ true = rw (first-sat (has_jti db old) t.tokens c found, unrevoked) refl in
      let less =
        exchanged-few q f (has_jti db old) t.tokens c stored_row (λ r. ground arith) found hit
          unrevoked family in
      record {
        filled =
            all-update_if_kept has_family q f (t.tokens ++ stored_row ∷ []) (λ r. refl)
              (all-append has_family t.tokens _ ∙ rw (h.filled, good) refl);
        few = omega (arith, less, h.few);
      }

  IsSingle-IsKept : IsKept db is_elsewhere IsSingle
  IsSingle-IsKept = record {
    by_exchange = exchanged-IsSingle;
    by_family = λ user_id family at reason t.
        with_tokens-IsSingle (λ r. in_family db user_id family r && is_unrevoked r)
          (mark_revoked at reason) t (λ r. refl) (λ r. ground arith);
    by_id = λ jti at reason by t.
        with_tokens-IsSingle (λ r. has_jti db jti r && is_unrevoked r) (mark_replaced at reason by)
          t (λ r. refl) (λ r. ground arith);
    by_user = λ user_id at reason t.
        with_tokens-IsSingle (λ r. eq_ℤ r.user_id user_id && is_unrevoked r)
          (mark_revoked at reason) t (λ r. refl) (λ r. ground arith);
    by_store = λ token t allowed good new. stored-IsSingle token t allowed good;
  }

-- A family of which at most one refresh token is in force stays so, whatever calls on the session
-- service follow, as long as StoreRefreshToken adds no other token to it.
pub run-IsSingle :
    (db : Database) (family_id : String) (calls : List Call) (s : db.State)
    → all (stores_only (is_elsewhere db family_id)) calls ≡ true
    → IsSingle db family_id (db.view s)
    → IsSingle db family_id (db.view (run db calls s))
run-IsSingle db family_id calls s =
    run-keeps db (is_elsewhere db family_id) (IsSingle db family_id) (IsSingle-IsKept db family_id)
      calls s
