-- ===== src/Service/Auth/Stored.antt =====
-- `StoreRefreshToken` and `RevokeAllRefreshTokens`: how they end.
use go_user_system.Common.{
  Bool, true, false, ◌||◌, not, some, ◌≡◌, refl, ◌∙◌, any, [], ◌∷◌, ◌++◌, Bool-cases, inl, inr,
}
use go_user_system.Common.Int.{ℤ, pos, leb_ℤ, ◌+ℤ◌}
use go_user_system.Common.Text.{is_empty}
use go_user_system.Common.Time.{Time}
use go_user_system.Errors.{
  Error, sentinel, error_is, database_not_initialized, invalid_user_id, Sentinel,
}
use go_user_system.Model.{RefreshToken, password_change}
use go_user_system.Result.{Result, ok, err}
use go_user_system.Database.{Database, Tables, done, broken, clashes}
use go_user_system.Repository.Laws.{all_revoked, create_lem, revoke_all_by_user_id_lem}
use go_user_system.Service.Auth.{store_refresh_token, revoke_all_refresh_tokens}
use go_user_system.Service.Promise.{IsFault}

-- The new row is last.
abbrev pub stored : RefreshToken → Tables → Tables
stored token t = record t {
  tokens = t.tokens ++ record token { id = t.next_token_id } ∷ [];
  next_token_id = t.next_token_id +ℤ pos 1;
}

abbrev pub is_bad_token : RefreshToken → Bool
is_bad_token token =
    leb_ℤ token.user_id (pos 0)
    || is_empty token.jti
    || is_empty token.family_id
    || is_empty token.token_hash

module _ (db : Database) where
  open db use {State, view, collates}

  pub data StoreEnds (token : RefreshToken) (t : Tables) (bad : Bool)
      (o : Result (Unit {0}) × State) : Type 0 where
    refusal :
        (e : Sentinel)
        → bad ≡ true
        → o.0 ≡ err (sentinel e)
        → view o.1 ≡ t
        → StoreEnds token t bad o
    success :
        bad ≡ false
        → any (clashes collates token) t.tokens ≡ false
        → o.0 ≡ ok tt
        → view o.1 ≡ stored token t
        → StoreEnds token t bad o
    fault : (e : Error) → o.0 ≡ err e → IsFault e → view o.1 ≡ t → StoreEnds token t bad o

  -- A token is stored as the last row if the request is good and no row has its id or its hash;
  -- otherwise an error is returned and the tables are as before.
  pub store_refresh_token_ends :
      (initialized : Bool) (token : RefreshToken) (s : State)
      → StoreEnds token
          (view s)
          (not initialized || is_bad_token token)
          (store_refresh_token db initialized (some token) s)
  unfolding store_refresh_token error_is
  store_refresh_token_ends false token s = refusal database_not_initialized refl refl refl
  store_refresh_token_ends true token s = elim (Bool-cases (is_bad_token token)) [
    | inl bad ↦ rw bad (refusal Sentinel.refresh_token_invalid refl refl refl)
    | inr good ↦ elim (create_lem db token s) [
      | broken text p q ↦ rw (good, p) (fault _ refl refl q)
      | done p q ↦ elim (Bool-cases (any (clashes collates token) (view s).tokens)) [
        | inl clash ↦ rw (good, p, clash) (fault _ refl refl (q ∙ rw clash))
        | inr fresh ↦ rw (good, p, fresh) (success refl fresh refl (q ∙ rw fresh))
      ]
    ]
  ]

  pub data RevokeAllEnds (user_id : ℤ) (now : Time) (t : Tables) (bad : Bool)
      (o : Result (Unit {0}) × State) : Type 0 where
    refusal :
        (e : Sentinel)
        → bad ≡ true
        → o.0 ≡ err (sentinel e)
        → view o.1 ≡ t
        → RevokeAllEnds user_id now t bad o
    success :
        bad ≡ false
        → o.0 ≡ ok tt
        → view o.1 ≡ all_revoked db user_id now password_change t
        → RevokeAllEnds user_id now t bad o
    fault : (e : Error) → o.0 ≡ err e → IsFault e → view o.1 ≡ t → RevokeAllEnds user_id now t bad o

  -- All refresh tokens of the user that are not revoked yet are revoked if the request is good;
  -- otherwise an error is returned and the tables are as before.
  pub revoke_all_refresh_tokens_ends :
      (initialized : Bool) (user_id : ℤ) (now : Time) (s : State)
      → RevokeAllEnds user_id now
          (view s)
          (not initialized || leb_ℤ user_id (pos 0))
          (revoke_all_refresh_tokens db initialized user_id now s)
  unfolding revoke_all_refresh_tokens error_is
  revoke_all_refresh_tokens_ends false user_id now s =
      refusal database_not_initialized refl refl refl
  revoke_all_refresh_tokens_ends true user_id now s = elim (Bool-cases (leb_ℤ user_id (pos 0))) [
    | inl bad ↦ rw bad (refusal invalid_user_id refl refl refl)
    | inr good ↦ elim (revoke_all_by_user_id_lem db user_id now password_change s) [
      | broken text p q ↦ rw (good, p) (fault _ refl refl q)
      | done p q ↦ rw (good, p) (success refl refl q)
    ]
  ]
