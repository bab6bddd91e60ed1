-- ===== src/Handler/Login/Guesses.antt =====
-- What a request to `LoginHandler` tries: the name and the password that the limit lets through are
-- compared, and the counters of the memory store follow.
use go_user_system.Common.{
  String, true, ℕ, suc, ◌≡◌, refl, if◌then◌else◌, Bool-cases, inl, inr, ◌⊎◌, ◌≢◌,
}
use go_user_system.Common.Int.{pos, leb_ℤ}
use go_user_system.Common.Text.{trim_space}
use go_user_system.Common.Time.{Time}
use go_user_system.Errors.{error_is, equals_invalid_credentials}
use go_user_system.Model.{User}
use go_user_system.Result.{Result, ok, err, Result-cases}
use go_user_system.AuthState.{MemoryStore, check_login_limit, record_login_failure}
use go_user_system.AuthState.Interface.{memory_store}
use go_user_system.Service.Access.{
  check_login_allowed, record_failed_login, is_bad_limit, normalize_account,
}
use go_user_system.Service.User.{login}
use go_user_system.Handler.{UserHandler}
use go_user_system.Handler.Login.{LoginRequest, LoginMoment, try_login, after_login}

-- The password was not compared, or it was wrong, or it was right.
pub data Guess : Type 0 where
  untried wrong right : Guess

abbrev pub guess_of_login : Result User → Guess
guess_of_login (ok user) = right
guess_of_login (err e) = if error_is equals_invalid_credentials e then wrong else untried

abbrev pub count_wrong : Guess → ℕ → ℕ
count_wrong wrong n = suc n
count_wrong untried n = n
count_wrong right n = n

-- A handler over the memory store.
abbrev pub in_memory : (String → String) → UserHandler → UserHandler
in_memory digest h = record h { store = memory_store digest }

module _ (digest : String → String) (h : UserHandler) where
  -- A call of the limiter fails, with no change, or is the call of the store.
  pub check_cases :
      (account ip : String) (at : Time) (k : MemoryStore)
      → let o = check_login_allowed (memory_store digest) h.lower h.limit account ip at k in
        let p =
          check_login_limit digest
            (normalize_account h.lower account)
            (trim_space ip)
            h.limit.account_limit
            h.limit.ip_limit
            at
            k in
        ((is_bad_limit h.limit ≡ true) × (o.1 ≡ k)) ⊎ ((o.0 ≡ ok p.0) × (o.1 ≡ p.1))
  unfolding check_login_allowed
  check_cases account ip at k = elim (Bool-cases (is_bad_limit h.limit)) [
    | inl bad ↦ inl (bad, rw bad refl)
    | inr good ↦ inr (rw good refl, rw good refl)
  ]

  pub record_cases :
      (account ip : String) (at : Time) (k : MemoryStore)
      → let o = record_failed_login (memory_store digest) h.lower h.limit account ip at k in
        let p =
          record_login_failure digest
            (normalize_account h.lower account)
            (trim_space ip)
            h.limit.account_limit
            h.limit.ip_limit
            h.limit.window
            at
            k in
        ((is_bad_limit h.limit ≡ true) × (o.1 ≡ k)) ⊎ ((o.0 ≡ ok p.0) × (o.1 ≡ p.1))
  unfolding record_failed_login
  record_cases account ip at k = elim (Bool-cases (is_bad_limit h.limit)) [
    | inl bad ↦ inl (bad, rw bad refl)
    | inr good ↦ inr (rw good refl, rw good refl)
  ]

  -- The store after the record of a wrong password.
  abbrev pub recorded : LoginMoment → LoginRequest → String → MemoryStore → MemoryStore
  recorded at req ip k =
      (record_failed_login (memory_store digest) h.lower h.limit req.username ip at.recorded_at k).1

  abbrev pub checked : LoginMoment → LoginRequest → String → MemoryStore → MemoryStore
  checked at req ip k =
      (check_login_allowed (memory_store digest) h.lower h.limit req.username ip at.checked_at k).1

  after_login-store :
      (at : LoginMoment) (req : LoginRequest) (ip : String) (r : Result User) (s : h.db.State)
      (k : MemoryStore)
      → guess_of_login r ≢ right
      → (after_login (in_memory digest h) at req ip r (s, k)).1
        ≡ (s, elim (guess_of_login r) [ untried ↦ k | wrong ↦ recorded at req ip k | right ↦ k ])
  after_login-store at req ip (ok user) s k ne = absurd (ne refl)
  after_login-store at req ip (err e) s k ne =
      elim (Bool-cases (error_is equals_invalid_credentials e)) [
        | inr other ↦ rw other refl
        | inl bad ↦
            let o =
              record_failed_login (memory_store digest) h.lower h.limit req.username ip
                at.recorded_at k in
            elim (Result-cases o.0) [
              | inr (f, lost) ↦ rw (bad, lost) refl
              | inl (wait, told) ↦ elim (Bool-cases (leb_ℤ wait (pos 0))) [
                | inl none_left ↦ rw (bad, told, none_left) refl
                | inr some_left ↦ rw (bad, told, some_left) refl
              ]
            ]
      ]

  -- Unless the password was right, a login leaves one more failure if it was wrong.
  pub try_login-store :
      (at : LoginMoment) (req : LoginRequest) (ip : String) (s : h.db.State) (k : MemoryStore)
      → let r = (login h.db h.bcrypt h.users req.username req.password at.login_at s).0 in
        guess_of_login r ≢ right
        → (try_login (in_memory digest h) at req ip (s, k)).1 ≡ (
          (login h.db h.bcrypt h.users req.username req.password at.login_at s).1,
          elim (guess_of_login r) [ untried ↦ k | wrong ↦ recorded at req ip k | right ↦ k ],
        )
  try_login-store at req ip s k ne =
      let o = login h.db h.bcrypt h.users req.username req.password at.login_at s in
      after_login-store at req ip o.0 o.1 k ne
