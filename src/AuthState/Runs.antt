-- ===== src/AuthState/Runs.antt =====
-- Sequences of calls on the memory store, in the order in which they take its mutex.
use go_user_system.Common.{String, true, some, ◌≡◌, ◌≢◌, ap, ◌∙◌, eq_iff, arith, List, [], ◌∷◌, All}
use go_user_system.Common.Int.{ℤ, ◌<ℤ◌, pos, lt→ltb_ℤ}
use go_user_system.Common.Time.{Time, Duration, add}
use go_user_system.Common.Dict.{lookup, lookup-insert, lookup-erase}
use go_user_system.AuthState.{
  MemoryStore, access_revocation_key, revoke_access_token, is_access_token_revoked,
  check_login_limit, record_login_failure, reset_login_account, counter_retry_after,
  increment_counter,
}
use go_user_system.AuthState.Revocation.{answer, answer_lem, is_live}

-- The calls of the interface `Store` that read or change state.
pub data Call : Type 0 where
  revoke : String → Duration → Call
  ask : String → Call
  check : String → String → ℤ → ℤ → Call
  fail : String → String → ℤ → ℤ → Duration → Call
  reset : String → Call

module _ (digest : String → String) where
  unfoldable pub perform : Call → Time → MemoryStore → MemoryStore
  perform (revoke jti ttl) now s = revoke_access_token digest jti ttl now s
  perform (ask jti) now s = (is_access_token_revoked digest jti now s).1
  perform (check account ip al il) now s = (check_login_limit digest account ip al il now s).1
  perform (fail account ip al il window) now s =
      (record_login_failure digest account ip al il window now s).1
  perform (reset account) now s = reset_login_account digest account s

  unfoldable pub run : List (Call × Time) → MemoryStore → MemoryStore
  run [] s = s
  run ((call, now) ∷ more) s = run more (perform call now s)

  -- A call that does not revoke under a key.
  abbrev pub Spares : String → Call → Type 0
  Spares jti (revoke other ttl) =
      access_revocation_key digest other ≢ access_revocation_key digest jti
  Spares jti (ask other) = Unit
  Spares jti (check account ip al il) = Unit
  Spares jti (fail account ip al il window) = Unit
  Spares jti (reset account) = Unit

  perform-keeps :
      (jti : String) (call : Call) (now e : Time) (s : MemoryStore)
      → Spares jti call
      → now <ℤ e
      → lookup (access_revocation_key digest jti) s.revoked ≡ some e
      → lookup (access_revocation_key digest jti) (perform call now s).revoked ≡ some e
  unfolding perform revoke_access_token is_access_token_revoked check_login_limit
      record_login_failure reset_login_account counter_retry_after increment_counter
  perform-keeps jti (revoke other ttl) now e s spares before h = ground (
    arith,
    eq_iff (access_revocation_key digest other) (access_revocation_key digest jti),
    lookup-insert (access_revocation_key digest jti) (access_revocation_key digest other)
        (add now ttl) s.revoked,
  )
  perform-keeps jti (ask other) now e s spares before h = ground (
    arith,
    eq_iff (access_revocation_key digest other) (access_revocation_key digest jti),
    lookup-erase (access_revocation_key digest jti) (access_revocation_key digest other) s.revoked,
  )
  perform-keeps jti (check account ip al il) now e s spares before h = ground arith
  perform-keeps jti (fail account ip al il window) now e s spares before h = h
  perform-keeps jti (reset account) now e s spares before h = h

  pub revoke_access_token-enters :
      (jti : String) (ttl : Duration) (now : Time) (s : MemoryStore)
      → pos 0 <ℤ ttl
      → lookup (access_revocation_key digest jti) (revoke_access_token digest jti ttl now s).revoked
        ≡ some (add now ttl)
  unfolding revoke_access_token
  revoke_access_token-enters jti ttl now s lasting = ground (
    arith,
    eq_iff (access_revocation_key digest jti) (access_revocation_key digest jti),
    lookup-insert (access_revocation_key digest jti) (access_revocation_key digest jti)
        (add now ttl) s.revoked,
  )

  run-keeps :
      (jti : String) (calls : List (Call × Time)) (e : Time) (s : MemoryStore)
      → All (λ c. Spares jti c.0 × (c.1 <ℤ e)) calls
      → lookup (access_revocation_key digest jti) s.revoked ≡ some e
      → lookup (access_revocation_key digest jti) (run calls s).revoked ≡ some e
  unfolding run
  run-keeps jti [] e s within h = h
  run-keeps jti ((call, now) ∷ more) e s ((spares, before), within) h =
      run-keeps jti more e _ within (perform-keeps jti call now e s spares before h)

  -- A token that was revoked for a positive lifetime is answered as revoked at every moment
  -- before that lifetime ends, whatever calls came between in whatever order, if none of them
  -- revokes under the token's key again and all come before that end.
  pub stays_revoked :
      (jti : String) (ttl : Duration) (start now : Time) (calls : List (Call × Time))
      (s : MemoryStore)
      → pos 0 <ℤ ttl
      → All (λ c. Spares jti c.0 × (c.1 <ℤ add start ttl)) calls
      → now <ℤ add start ttl
      → answer digest jti now (run calls (revoke_access_token digest jti ttl start s)) ≡ true
  stays_revoked jti ttl start now calls s lasting within before =
      let entered =
        run-keeps jti calls (add start ttl) (revoke_access_token digest jti ttl start s) within
          (revoke_access_token-enters jti ttl start s lasting) in
      answer_lem digest jti now _ ∙ ap (λ o. is_live o now) entered ∙ lt→ltb_ℤ now _ before
