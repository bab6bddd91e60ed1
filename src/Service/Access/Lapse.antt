-- ===== src/Service/Access/Lapse.antt =====
-- Access tokens after the end of the lifetime for which they were revoked.
use go_user_system.Common.{
  String, Bool, true, false, not, ◌||◌, ◌≡◌, refl, sym, ◌∙◌, ap, Bool-cases, inl, inr, ◌⊎◌, arith,
  some,
}
use go_user_system.Common.Int.{pos, leb_ℤ, eq_ℤ, ◌≤ℤ◌, le→ltb_ℤ}
use go_user_system.Common.Text.{is_blank}
use go_user_system.Common.Time.{Time, add, sub}
use go_user_system.Model.{user_status_active}
use go_user_system.Result.{ok, Result-cases}
use go_user_system.Database.{Database}
use go_user_system.Dao.{get_user_by_id}
use go_user_system.AuthState.{MemoryStore, revoke_access_token}
use go_user_system.AuthState.Interface.{Store, memory_store}
use go_user_system.AuthState.Revocation.{answer, revoke-answer}
use go_user_system.Token.{UserClaims}
use go_user_system.Service.Access.{validate_access_token, revoke_access, is_bad_claims}

-- What the store is asked for is whether the token is revoked.
validate_by_answer :
    (db : Database) (store : Store) (initialized : Bool) (claims : UserClaims) (at : Time)
    (s : db.State) (m n : store.State)
    → (store.is_revoked claims.jti at m).0 ≡ (store.is_revoked claims.jti at n).0
    → (validate_access_token db store initialized (some claims) at (s, m)).0
      ≡ (validate_access_token db store initialized (some claims) at (s, n)).0
unfolding validate_access_token
validate_by_answer db store initialized claims at s m n same = elim (Bool-cases initialized) [
  | inr missing ↦ rw missing refl
  | inl ready ↦ elim (Bool-cases (is_bad_claims claims)) [
    | inl bad ↦ rw (ready, bad) refl
    | inr good ↦ elim (Result-cases (get_user_by_id db claims.user_id s).0) [
      | inr (e, lost) ↦ rw (ready, good, lost) refl
      | inl (u, found) ↦
          let stale =
            not (eq_ℤ u.status user_status_active)
            || not (eq_ℤ u.auth_version claims.auth_version) in
          elim (Bool-cases stale) [
            | inl old ↦ rw (ready, good, found, old) refl
            | inr current ↦ elim (Result-cases (store.is_revoked claims.jti at n).0) [
              | inr (e, lost) ↦ rw (ready, good, found, current, same, lost) refl
              | inl (true, told) ↦ rw (ready, good, found, current, same, told) refl
              | inl (false, told) ↦ rw (ready, good, found, current, same, told) refl
            ]
          ]
    ]
  ]
]

module _ (digest : String → String) (db : Database) where
  revoked_at :
      (jti : String) (expires_at now at : Time) (s : db.State) (m : MemoryStore)
      → let n = (revoke_access db (memory_store digest) jti expires_at now at (s, m)).1.1 in
        (n ≡ m) ⊎ (n ≡ revoke_access_token digest jti (sub expires_at now) at m)
  unfolding revoke_access
  revoked_at jti expires_at now at s m = elim (Bool-cases (is_blank jti)) [
    | inl blank ↦ inl (rw blank refl)
    | inr full ↦ elim (Bool-cases (leb_ℤ (sub expires_at now) (pos 0))) [
      | inl over ↦ inl (rw (full, over) refl)
      | inr live ↦ inr (rw (full, live) refl)
    ]
  ]

  -- A revocation in the memory store ends with the lifetime that the service computed: from then
  -- on the claims are judged as if the token had never been revoked, if no other revocation of it
  -- is in force.
  pub revocation_lapses :
      (initialized : Bool) (claims : UserClaims) (expires_at now at later : Time) (s : db.State)
      (m : MemoryStore)
      → answer digest claims.jti later m ≡ false
      → add at (sub expires_at now) ≤ℤ later
      → let n = (revoke_access db (memory_store digest) claims.jti expires_at now at (s, m)).1.1 in
        (validate_access_token db (memory_store digest) initialized (some claims) later (s, n)).0
        ≡ (validate_access_token db (memory_store digest) initialized (some claims) later (s, m)).0
  revocation_lapses initialized claims expires_at now at later s m before after =
      let ttl = sub expires_at now in
      let n = (revoke_access db (memory_store digest) claims.jti expires_at now at (s, m)).1.1 in
      let unanswered : answer digest claims.jti later
            (revoke_access_token digest claims.jti ttl at m)
          ≡ false =
        ground (
          arith,
          revoke-answer digest claims.jti claims.jti ttl at later m,
          le→ltb_ℤ later (add at ttl) after,
        ) in
      let same : answer digest claims.jti later n ≡ answer digest claims.jti later m =
        elim (revoked_at claims.jti expires_at now at s m) [
          | inl kept ↦ rw kept refl
          | inr told ↦ rw told (unanswered ∙ sym before)
        ] in
      validate_by_answer db (memory_store digest) initialized claims later s n m (ap ok same)
