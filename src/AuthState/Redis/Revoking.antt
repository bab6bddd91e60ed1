-- ===== src/AuthState/Redis/Revoking.antt =====
-- The Redis store as an instance of the interface Store: the law on revoked access tokens.
use Prim.Native.String.{◌++◌}
use text.Mathlib.TextLemmas.{append_cancel_left, append_assoc, append_inj}
use go_user_system.Common.{
  String, false, Option, some, ◌≡◌, ◌≢◌, refl, sym, ◌∙◌, arith, eq_iff, inl, inr, ◌⊎◌, str_eq,
  Bool-cases,
}
use go_user_system.Common.Int.{ℤ, pos, ◌<ℤ◌, ◌≤ℤ◌, leb_ℤ}
use go_user_system.Common.Time.{Time, Duration, add}
use go_user_system.Result.{ok, Result-cases}
use go_user_system.AuthState.{access_revocation_key, account_failure_key, ip_failure_key}
use go_user_system.AuthState.Interface.{Store, LoginAttempt}
use go_user_system.AuthState.Redis.{
  Redis, Entry, unexpired_entry, sent_ttl, revoke_access_token, is_access_token_revoked,
  check_login_limit, record_login_failure, reset_login_account, counter_value,
}

module _ (digest : String → String) where
  -- A token and an account never share a key, nor do a token and an address.
  access-ne-account :
      (jti account : String) → access_revocation_key digest jti ≢ account_failure_key digest account
  unfolding access_revocation_key account_failure_key
  access-ne-account jti account e =
      let rest : ("access:revoked:" ++ digest jti) ≡ "login:account:" ++ digest account =
        append_cancel_left _ _ _ e in
      let split : ("access" ++ (":revoked:" ++ digest jti))
          ≡ "login:" ++ ("account:" ++ digest account) =
        sym (append_assoc "access" ":revoked:" (digest jti))
        ∙ rest
        ∙ append_assoc "login:" "account:" (digest account) in
      let clash : ◌≡◌ {A = String} "access" "login:" = (append_inj split refl).0 in
      ground (arith, eq_iff "access" "login:")

  access-ne-ip : (jti ip : String) → access_revocation_key digest jti ≢ ip_failure_key digest ip
  unfolding access_revocation_key ip_failure_key
  access-ne-ip jti ip e =
      let rest : ("access:revoked:" ++ digest jti) ≡ "login:ip:" ++ digest ip =
        append_cancel_left _ _ _ e in
      let split : ("access" ++ (":revoked:" ++ digest jti)) ≡ "login:" ++ ("ip:" ++ digest ip) =
        sym (append_assoc "access" ":revoked:" (digest jti))
        ∙ rest
        ∙ append_assoc "login:" "ip:" (digest ip) in
      let clash : ◌≡◌ {A = String} "access" "login:" = (append_inj split refl).0 in
      ground (arith, eq_iff "access" "login:")

module _ (redis : Redis) (digest : String → String) where
  open redis use {State, at_key}

  -- The key of the token holds an entry that expires at this time or later.
  pub record IsKept (jti : String) (end : Time) (s : State) : Type 0 where
    pub text : String
    pub expires_at : Time
    pub is_entry :
        at_key (access_revocation_key digest jti) s
        ≡ some (record { text = text; expires_at = some expires_at })
    pub is_late : end ≤ℤ expires_at

  unexpired-kept :
      (o : Option Entry) (text : String) (e now : Time)
      → o ≡ some (record { text = text; expires_at = some e })
      → now <ℤ e
      → unexpired_entry o now ≡ some (record { text = text; expires_at = some e })
  unexpired-kept o text e now h before = rw h (ground arith)

  kept-unexpired :
      (jti : String) (end now : Time) (s : State) (k : IsKept jti end s)
      → now <ℤ end
      → unexpired_entry (at_key (access_revocation_key digest jti) s) now
        ≡ some (record { text = k.text; expires_at = some k.expires_at })
  kept-unexpired jti end now s k before =
      let late = k.is_late in unexpired-kept _ k.text k.expires_at now k.is_entry (ground arith)

  moved :
      (jti : String) (end : Time) (s t : State)
      → IsKept jti end s
      → at_key (access_revocation_key digest jti) t ≡ at_key (access_revocation_key digest jti) s
      → IsKept jti end t
  moved jti end s t k same = record {
    text = k.text;
    expires_at = k.expires_at;
    is_entry = same ∙ k.is_entry;
    is_late = k.is_late;
  }

  pub revoke_access_token-IsKept :
      (jti : String) (ttl : Duration) (now : Time) (s : State)
      → pos 0 <ℤ ttl
      → (revoke_access_token redis digest jti ttl now s).0 ≡ ok tt
      → IsKept jti (add now (sent_ttl ttl)) (revoke_access_token redis digest jti ttl now s).1
  unfolding revoke_access_token
  revoke_access_token-IsKept jti ttl now s lasting done =
      let live : leb_ℤ ttl (pos 0) ≡ false = ground arith in
      rw live (record {
        text = "1";
        expires_at = add now (sent_ttl ttl);
        is_entry = redis.set_lem (access_revocation_key digest jti) "1" ttl now s (rw live at done);
        is_late = ground arith;
      })

  pub revoke_access_token-spares :
      (jti other : String) (end now : Time) (ttl : Duration) (s : State)
      → IsKept jti end s
      → (str_eq (access_revocation_key digest other) (access_revocation_key digest jti) ≡ false)
        ⊎ (end ≤ℤ add now (sent_ttl ttl))
      → IsKept jti end (revoke_access_token redis digest other ttl now s).1
  unfolding revoke_access_token
  revoke_access_token-spares jti other end now ttl s k spared =
      let this = access_revocation_key digest jti in
      let that = access_revocation_key digest other in
      elim (Bool-cases (leb_ℤ ttl (pos 0))) [
        | inl over ↦ rw over k
        | inr lasting ↦ elim (redis.set_keeps that "1" this ttl now s) [
          | inl same ↦ rw lasting (moved jti end s _ k same)
          | inr (shared, new) ↦ elim spared [
            | inl apart ↦ absurd (ground (arith, eq_iff that this))
            | inr later ↦ rw lasting (record {
              text = "1";
              expires_at = add now (sent_ttl ttl);
              is_entry = new;
              is_late = later;
            })
          ]
        ]
      ]

  pub IsKept-sooner :
      (jti : String) (end sooner : Time) (s : State)
      → sooner ≤ℤ end
      → IsKept jti end s
      → IsKept jti sooner s
  IsKept-sooner jti end sooner s le k = record {
    text = k.text;
    expires_at = k.expires_at;
    is_entry = k.is_entry;
    is_late = ground (arith, k.is_late);
  }

  pub is_access_token_revoked-kept :
      (jti : String) (end now : Time) (s : State)
      → IsKept jti end s
      → now <ℤ end
      → (is_access_token_revoked redis digest jti now s).0 ≢ ok false
  unfolding is_access_token_revoked
  is_access_token_revoked-kept jti end now s k before denied =
      let key = access_revocation_key digest jti in
      elim (Result-cases (redis.exists key now s).0) [
        | inr (e, lost) ↦ absurd (let d = rw lost at denied in cc)
        | inl (n, told) ↦
            let one = redis.exists_lem key n now s told in
            let seen = kept-unexpired jti end now s k before in
            let this : n ≡ pos 1 = rw seen at one in
            absurd (let d = rw (told, this) at denied in cc)
      ]

  pub is_access_token_revoked-IsKept :
      (jti other : String) (end now : Time) (s : State)
      → IsKept jti end s
      → now <ℤ end
      → IsKept jti end (is_access_token_revoked redis digest other now s).1
  unfolding is_access_token_revoked
  is_access_token_revoked-IsKept jti other end now s k before =
      let key = access_revocation_key digest other in
      let same =
        redis.exists_keeps key (access_revocation_key digest jti) now s _
          (kept-unexpired jti end now s k before) in
      elim (Result-cases (redis.exists key now s).0) [
        | inr (e, lost) ↦ rw lost (moved jti end s _ k same)
        | inl (n, told) ↦ rw told (moved jti end s _ k same)
      ]

  check_login_limit-state :
      (account ip : String) (account_limit ip_limit : ℤ) (now : Time) (s : State)
      → (check_login_limit redis digest account ip account_limit ip_limit now s).1
        ≡ (redis.read_two (account_failure_key digest account) (ip_failure_key digest ip) now s).1
  unfolding check_login_limit
  check_login_limit-state account ip account_limit ip_limit now s =
      elim (Result-cases
        (redis.read_two (account_failure_key digest account) (ip_failure_key digest ip) now s).0) [
          | inr (e, lost) ↦ rw lost refl
          | inl (c, told) ↦ elim (Result-cases (counter_value c.account_value)) [
            | inr (e, bad) ↦ rw (told, bad) refl
            | inl (n, good) ↦ elim (Result-cases (counter_value c.ip_value)) [
              | inr (e, bad) ↦ rw (told, good, bad) refl
              | inl (m, fine) ↦ rw (told, good, fine) refl
            ]
          ]
        ]

  pub check_login_limit-IsKept :
      (jti : String) (end now : Time) (a : LoginAttempt) (s : State)
      → IsKept jti end s
      → now <ℤ end
      → IsKept jti end
          (check_login_limit redis digest a.account a.ip a.account_limit a.ip_limit now s).1
  check_login_limit-IsKept jti end now a s k before =
      rw (check_login_limit-state a.account a.ip a.account_limit a.ip_limit now s) (
        moved jti end s _ k
          (redis.read_two_keeps _ _ _ now s _ (kept-unexpired jti end now s k before)))

  pub record_login_failure-IsKept :
      (jti : String) (end now : Time) (a : LoginAttempt) (s : State)
      → IsKept jti end s
      → now <ℤ end
      → IsKept jti end
          (record_login_failure redis digest a.account a.ip a.account_limit a.ip_limit a.window now
            s).1
  unfolding record_login_failure
  record_login_failure-IsKept jti end now a s k before =
      let same =
        redis.count_two_keeps (account_failure_key digest a.account) (ip_failure_key digest a.ip)
          (access_revocation_key digest jti) a.window now s _
          (access-ne-account digest jti a.account) (access-ne-ip digest jti a.ip)
          (kept-unexpired jti end now s k before) in
      elim (Result-cases
        (redis.count_two (account_failure_key digest a.account) (ip_failure_key digest a.ip)
          a.window now s).0) [
            | inr (e, lost) ↦ rw lost (moved jti end s _ k same)
            | inl (c, told) ↦ rw told (moved jti end s _ k same)
          ]

  pub reset_login_account-IsKept :
      (jti account : String) (end now : Time) (s : State)
      → IsKept jti end s
      → now <ℤ end
      → IsKept jti end (reset_login_account redis digest account now s).1
  unfolding reset_login_account
  reset_login_account-IsKept jti account end now s k before = moved jti end s _ k (
      redis.del_keeps (account_failure_key digest account) (access_revocation_key digest jti) now s
        _ (access-ne-account digest jti account) (kept-unexpired jti end now s k before))

  abbrev pub redis_store : Store
  redis_store = record {
    State = State;
    revoke = revoke_access_token redis digest;
    is_revoked = is_access_token_revoked redis digest;
    check_limit = λ a. check_login_limit redis digest a.account a.ip a.account_limit a.ip_limit;
    record_failure =
        λ a. record_login_failure redis digest a.account a.ip a.account_limit a.ip_limit a.window;
    reset_account = reset_login_account redis digest;
    lasting = sent_ttl;
    shares_key = λ a b. str_eq (access_revocation_key digest a) (access_revocation_key digest b);
    Revoked = IsKept;
    revoke_lem = revoke_access_token-IsKept;
    revoked_until = IsKept-sooner;
    revoke_keeps = revoke_access_token-spares;
    is_revoked_lem = is_access_token_revoked-kept;
    is_revoked_keeps = is_access_token_revoked-IsKept;
    check_limit_keeps = check_login_limit-IsKept;
    record_failure_keeps = record_login_failure-IsKept;
    reset_account_keeps = reset_login_account-IsKept;
  }
