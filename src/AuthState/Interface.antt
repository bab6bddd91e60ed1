-- ===== src/AuthState/Interface.antt =====
-- internal/authstate/store.go: the interface `Store`, and the memory store as one. A call
-- may fail, as one of the Redis store may. `Revoked` is what the clients rely on: once a revocation
-- has succeeded, the token is answered as revoked until its lifetime has passed, as far as the
-- store keeps it: `lasting` is the part of a lifetime that it keeps, and `shares_key` tells which
-- identifiers stand under one key.
use go_user_system.Common.{
  String, Bool, true, false, some, ◌≡◌, ◌≢◌, ap, ◌∙◌, eq_iff, arith, ◌⊎◌, inl, inr, refl, str_eq,
  Bool-cases,
}
use go_user_system.Common.Int.{ℤ, pos, ◌<ℤ◌, ◌≤ℤ◌, leb_ℤ, lt→ltb_ℤ}
use go_user_system.Common.Time.{Time, Duration, add}
use go_user_system.Common.Dict.{lookup, lookup-erase, lookup-insert}
use go_user_system.Result.{Result, ok, Action}
use go_user_system.AuthState.{
  MemoryStore, access_revocation_key, revoke_access_token, is_access_token_revoked,
  check_login_limit, record_login_failure, reset_login_account, counter_retry_after,
  increment_counter,
}
use go_user_system.AuthState.Revocation.{answer_lem, is_live}
use go_user_system.AuthState.Runs.{revoke_access_token-enters}

-- The account, the address, the two limits and the window of a call about logins.
pub record LoginAttempt : Type 0 where
  pub account : String
  pub ip : String
  pub account_limit : ℤ
  pub ip_limit : ℤ
  pub window : Duration

pub record Store : Type 1 where
  pub State : Type 0
  pub revoke : String → Duration → Time → Action State (Unit {0})
  pub is_revoked : String → Time → Action State Bool
  pub check_limit : LoginAttempt → Time → Action State Duration
  pub record_failure : LoginAttempt → Time → Action State Duration
  pub reset_account : String → Time → Action State (Unit {0})
  pub lasting : Duration → Duration
  pub shares_key : String → String → Bool
  pub Revoked : String → Time → State → Type 0
  pub revoke_lem :
      (jti : String) (ttl : Duration) (now : Time) (s : State)
      → pos 0 <ℤ ttl
      → (revoke jti ttl now s).0 ≡ ok tt
      → Revoked jti (add now (lasting ttl)) (revoke jti ttl now s).1
  pub revoked_until :
      (jti : String) (end sooner : Time) (s : State)
      → sooner ≤ℤ end
      → Revoked jti end s
      → Revoked jti sooner s
  pub revoke_keeps :
      (jti other : String) (end now : Time) (ttl : Duration) (s : State)
      → Revoked jti end s
      → (shares_key other jti ≡ false) ⊎ (end ≤ℤ add now (lasting ttl))
      → Revoked jti end (revoke other ttl now s).1
  pub is_revoked_lem :
      (jti : String) (end now : Time) (s : State)
      → Revoked jti end s
      → now <ℤ end
      → (is_revoked jti now s).0 ≢ ok false
  pub is_revoked_keeps :
      (jti other : String) (end now : Time) (s : State)
      → Revoked jti end s
      → now <ℤ end
      → Revoked jti end (is_revoked other now s).1
  pub check_limit_keeps :
      (jti : String) (end now : Time) (a : LoginAttempt) (s : State)
      → Revoked jti end s
      → now <ℤ end
      → Revoked jti end (check_limit a now s).1
  pub record_failure_keeps :
      (jti : String) (end now : Time) (a : LoginAttempt) (s : State)
      → Revoked jti end s
      → now <ℤ end
      → Revoked jti end (record_failure a now s).1
  pub reset_account_keeps :
      (jti account : String) (end now : Time) (s : State)
      → Revoked jti end s
      → now <ℤ end
      → Revoked jti end (reset_account account now s).1

module _ (digest : String → String) where
  abbrev pub succeeds : {A : Type 0} → A × MemoryStore → Result A × MemoryStore
  succeeds (a, s) = (ok a, s)

  abbrev pub HasRevoked : String → Time → MemoryStore → Type 0
  HasRevoked jti end s =
      (e : Time) × (end ≤ℤ e) × (lookup (access_revocation_key digest jti) s.revoked ≡ some e)

  pub memory_is_revoked_lem :
      (jti : String) (end now : Time) (s : MemoryStore)
      → HasRevoked jti end s
      → now <ℤ end
      → (is_access_token_revoked digest jti now s).0 ≡ true
  memory_is_revoked_lem jti end now s (e, late, h) before =
      answer_lem digest jti now s ∙ ap (λ o. is_live o now) h ∙ lt→ltb_ℤ now e (ground arith)

  pub memory_revoke_keeps :
      (jti other : String) (end now : Time) (ttl : Duration) (s : MemoryStore)
      → HasRevoked jti end s
      → (str_eq (access_revocation_key digest other) (access_revocation_key digest jti) ≡ false)
        ⊎ (end ≤ℤ add now ttl)
      → HasRevoked jti end (revoke_access_token digest other ttl now s)
  unfolding revoke_access_token
  memory_revoke_keeps jti other end now ttl s (e, late, h) spared =
      let j = access_revocation_key digest jti in
      let k = access_revocation_key digest other in
      let new = lookup-insert j k (add now ttl) s.revoked in
      elim (Bool-cases (leb_ℤ ttl (pos 0))) [
        | inl over ↦ rw over (e, late, h)
        | inr lasting ↦ elim (Bool-cases (str_eq k j)) [
          | inr apart ↦ rw lasting (e, late, new ∙ rw apart h)
          | inl same ↦ elim spared [
            | inl apart ↦ absurd (cc)
            | inr later ↦ rw lasting (add now ttl, later, new ∙ rw same refl)
          ]
        ]
      ]

  pub memory_is_revoked_keeps :
      (jti other : String) (end now : Time) (s : MemoryStore)
      → HasRevoked jti end s
      → now <ℤ end
      → HasRevoked jti end (is_access_token_revoked digest other now s).1
  unfolding is_access_token_revoked
  memory_is_revoked_keeps jti other end now s (e, late, h) before = (
    e,
    late,
    ground (
      arith,
      eq_iff (access_revocation_key digest other) (access_revocation_key digest jti),
      lookup-erase (access_revocation_key digest jti) (access_revocation_key digest other)
          s.revoked,
    ),
  )

  pub memory_check_limit_keeps :
      (jti : String) (end now : Time) (a : LoginAttempt) (s : MemoryStore)
      → HasRevoked jti end s
      → HasRevoked jti end
          (check_login_limit digest a.account a.ip a.account_limit a.ip_limit now s).1
  unfolding check_login_limit counter_retry_after
  memory_check_limit_keeps jti end now a s (e, late, h) = (e, late, ground arith)

  pub memory_record_failure_keeps :
      (jti : String) (end now : Time) (a : LoginAttempt) (s : MemoryStore)
      → HasRevoked jti end s
      → HasRevoked jti end
          (record_login_failure digest a.account a.ip a.account_limit a.ip_limit a.window now s).1
  unfolding record_login_failure increment_counter
  memory_record_failure_keeps jti end now a s h = h

  pub memory_reset_account_keeps :
      (jti account : String) (end : Time) (s : MemoryStore)
      → HasRevoked jti end s
      → HasRevoked jti end (reset_login_account digest account s)
  unfolding reset_login_account
  memory_reset_account_keeps jti account end s h = h

  pub memory_revoke_lem :
      (jti : String) (ttl : Duration) (now : Time) (s : MemoryStore)
      → pos 0 <ℤ ttl
      → HasRevoked jti (add now ttl) (revoke_access_token digest jti ttl now s)
  memory_revoke_lem jti ttl now s lasting =
      (add now ttl, ground arith, revoke_access_token-enters digest jti ttl now s lasting)

  pub memory_revoked_until :
      (jti : String) (end sooner : Time) (s : MemoryStore)
      → sooner ≤ℤ end
      → HasRevoked jti end s
      → HasRevoked jti sooner s
  memory_revoked_until jti end sooner s le (e, late, h) = (e, ground arith, h)

  pub true-ne : {b : Bool} → b ≡ true → ok b ≢ ok false
  true-ne h p = cc

  abbrev pub memory_store : Store
  memory_store = record {
    State = MemoryStore;
    revoke = λ jti ttl now s. (ok tt, revoke_access_token digest jti ttl now s);
    is_revoked = λ jti now s. succeeds (is_access_token_revoked digest jti now s);
    check_limit = λ a now s.
        succeeds (check_login_limit digest a.account a.ip a.account_limit a.ip_limit now s);
    record_failure = λ a now s.
        succeeds
          (record_login_failure digest a.account a.ip a.account_limit a.ip_limit a.window now s);
    reset_account = λ account now s. (ok tt, reset_login_account digest account s);
    lasting = λ ttl. ttl;
    shares_key = λ a b. str_eq (access_revocation_key digest a) (access_revocation_key digest b);
    Revoked = HasRevoked;
    revoke_lem = λ jti ttl now s lasting _. memory_revoke_lem jti ttl now s lasting;
    revoked_until = memory_revoked_until;
    revoke_keeps = memory_revoke_keeps;
    is_revoked_lem =
        λ jti end now s h before. true-ne (memory_is_revoked_lem jti end now s h before);
    is_revoked_keeps = memory_is_revoked_keeps;
    check_limit_keeps = λ jti end now a s h before. memory_check_limit_keeps jti end now a s h;
    record_failure_keeps =
        λ jti end now a s h before. memory_record_failure_keeps jti end now a s h;
    reset_account_keeps =
        λ jti account end now s h before. memory_reset_account_keeps jti account end s h;
  }
