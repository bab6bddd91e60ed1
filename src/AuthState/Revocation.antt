-- ===== src/AuthState/Revocation.antt =====
-- What the memory store answers about revoked access tokens.
use go_user_system.Common.{
  String, Bool, false, Option, none, some, ◌≡◌, if◌then◌else◌, str_eq, eq_iff, arith, ◌&&◌,
}
use go_user_system.Common.Int.{pos, ltb_ℤ, ◌≤ℤ◌}
use go_user_system.Common.Time.{Time, Duration, after, add}
use go_user_system.Common.Dict.{lookup, lookup-insert, lookup-erase}
use go_user_system.AuthState.{
  MemoryStore, access_revocation_key, revoke_access_token, is_access_token_revoked,
}

abbrev pub is_live : Option Time → Time → Bool
is_live none now = false
is_live (some expires_at) now = after expires_at now

module _ (digest : String → String) where
  -- The answer about a token at a time.
  abbrev pub answer : String → Time → MemoryStore → Bool
  answer jti now s = (is_access_token_revoked digest jti now s).0

  pub answer_lem :
      (jti : String) (now : Time) (s : MemoryStore)
      → answer jti now s ≡ is_live (lookup (access_revocation_key digest jti) s.revoked) now
  unfolding is_access_token_revoked
  answer_lem jti now s = ground arith

  abbrev pub same_token : String → String → Bool
  same_token jti other =
      str_eq (access_revocation_key digest jti) (access_revocation_key digest other)

  -- After a revocation, a later question about a token that shares the key is answered yes
  -- exactly until the lifetime has passed; a lifetime that is not positive changes nothing; and
  -- the answer about every token with another key is the one from before.
  pub revoke-answer :
      (jti other : String) (ttl : Duration) (now later : Time) (s : MemoryStore)
      → answer other later (revoke_access_token digest jti ttl now s) ≡ (
          if ltb_ℤ (pos 0) ttl && same_token jti other
          then after (add now ttl) later
          else answer other later s)
  unfolding revoke_access_token is_access_token_revoked
  revoke-answer jti other ttl now later s = ground (
    arith,
    lookup-insert (access_revocation_key digest other) (access_revocation_key digest jti)
        (add now ttl) s.revoked,
  )

  -- Asking about a token drops an entry that has expired, and no question at that time or later
  -- is answered differently because of it.
  pub ask-answer :
      (jti other : String) (now later : Time) (s : MemoryStore)
      → now ≤ℤ later
      → answer other later (is_access_token_revoked digest jti now s).1 ≡ answer other later s
  unfolding is_access_token_revoked
  ask-answer jti other now later s h = ground (
    arith,
    eq_iff (access_revocation_key digest jti) (access_revocation_key digest other),
    lookup-erase (access_revocation_key digest other) (access_revocation_key digest jti) s.revoked,
  )
