-- ===== src/Config/Variables/Ends.antt =====
-- config/config.go: how `applyEnvOverrides` ends, and that its first malformed variable is reported.
use go_user_system.Common.{
  ℕ, zero, suc, String, Bool, true, false, Option, none, some, List, [], ◌∷◌, first, ◌≡◌, ◌≢◌, refl,
  arith, Bool-cases, inl, inr, Option-cases,
}
use go_user_system.Common.Int.{ℤ}
use go_user_system.Common.Text.{is_empty}
use go_user_system.Config.{Config, atoi}
use go_user_system.Config.Environment.{
  Outcome, loaded, refused, LoadError, invalid_variable, ◌>>=◌, Readings, read_variable, optional,
  parse_bool, read_number, read_flag, read_all, with_readings, apply_env_overrides,
}
use go_user_system.Config.Variables.{
  Variable, is_number, is_flag, variables, is_malformed, OverrideEnds, overridden, malformed,
  with_readings-IsOverridden,
}

abbrev drop : ℕ → List Variable → List Variable
drop zero vs = vs
drop (suc n) [] = []
drop (suc n) (v ∷ vs) = drop n vs

number_read : (v : String) → is_number v ≡ true → atoi v ≢ none
number_read v h = ground arith

number_unread : (v : String) → is_number v ≡ false → atoi v ≡ none
number_unread v h = ground arith

flag_read : (v : String) → is_flag v ≡ true → parse_bool v ≢ none
flag_read v h = ground arith

flag_unread : (v : String) → is_flag v ≡ false → parse_bool v ≡ none
flag_unread v h = ground arith

optional_read : (v : String) → is_flag v ≡ true → optional parse_bool v ≢ none
optional_read v h = ground arith

optional_unread : (v : String) → is_flag v ≡ false → optional parse_bool v ≡ none
optional_unread v h = ground arith

module _ (lower getenv : String → String) where
  -- A refusal names the first malformed variable of a list.
  abbrev Names : {A : Type 0} → List Variable → Outcome A → Type 0
  Names vs o =
      (e : LoadError)
      → o ≡ refused e
      → (v : Variable) × (e ≡ invalid_variable v.name)
        × (first (is_malformed lower getenv) vs ≡ some v)

  loaded-Names : {A : Type 0} (vs : List Variable) (a : A) → Names vs (loaded a)
  loaded-Names vs a e h = absurd (cc)

  bind-Names :
      {A B : Type 0} (parse : String → Option A) (accepts : String → Bool) (name : String) (old : A)
      (k : A → Outcome B) (vs : List Variable)
      → ((v : String) → accepts v ≡ true → parse v ≢ none)
      → ((v : String) → accepts v ≡ false → parse v ≡ none)
      → ((a : A) → Names vs (k a))
      → Names
          (record { name = name; accepts = accepts } ∷ vs)
          (read_variable parse name (getenv name) old >>= k)
  unfolding read_variable
  bind-Names parse accepts name old k vs sure unsure rest e h =
      let v : Variable = record { name = name; accepts = accepts } in
      elim (Bool-cases (is_empty (getenv name))) [
        | inl empty ↦ let (w, this, found) = rest old e (rw empty at h) in (w, this, rw empty found)
        | inr full ↦ elim (Bool-cases (accepts (getenv name))) [
          | inr bad ↦
              let gone = rw (full, unsure (getenv name) bad) at h in
              (v, refused_value gone, rw (full, bad) refl)
          | inl good ↦ elim (Option-cases (parse (getenv name))) [
            | inl gone ↦ absurd (sure (getenv name) good gone)
            | inr (a, read) ↦
                let (w, this, found) = rest a e (rw (full, read) at h) in
                (w, this, rw (full, good) found)
          ]
        ]
      ]
    where
      refused_value :
          {A : Type 0} {a b : LoadError} → ◌≡◌ {A = Outcome A} (refused a) (refused b) → b ≡ a
      refused_value h = cc

  abbrev rest_of : ℕ → List Variable
  rest_of n = drop n variables

  bind_number :
      {B : Type 0} (name : String) (old : ℤ) (k : ℤ → Outcome B) (vs : List Variable)
      → ((n : ℤ) → Names vs (k n))
      → Names
          (record { name = name; accepts = is_number } ∷ vs)
          (read_number lower getenv name old >>= k)
  bind_number name old k vs = bind-Names atoi is_number name old k vs number_read number_unread

  bind_flag :
      {B : Type 0} (name : String) (old : Bool) (k : Bool → Outcome B) (vs : List Variable)
      → ((b : Bool) → Names vs (k b))
      → Names
          (record { name = name; accepts = is_flag } ∷ vs)
          (read_flag lower getenv name old >>= k)
  bind_flag name old k vs = bind-Names parse_bool is_flag name old k vs flag_read flag_unread

  read_all-Names : (c : Config) → Names variables (read_all lower getenv c)
  unfolding read_all
  read_all-Names c = bind_number "APP_PORT" _ _ (rest_of 1) (λ port.
      bind_flag "REDIS_ENABLED" _ _ (rest_of 2) (λ enabled.
        bind_number "REDIS_DB" _ _ (rest_of 3) (λ db.
          bind_number "JWT_EXPIRE_HOURS" _ _ (rest_of 4) (λ hours.
            bind_number "JWT_ACCESS_TOKEN_EXPIRE_MINUTES" _ _ (rest_of 5) (λ minutes.
              bind_number "JWT_REFRESH_TOKEN_EXPIRE_HOURS" _ _ (rest_of 6) (λ refresh_hours.
                bind-Names (optional parse_bool) is_flag "REGISTRATION_ENABLED" _ _ (rest_of 7)
                  optional_read optional_unread
                  (λ registration.
                    bind_flag "COOKIE_SECURE" _ _ (rest_of 8) (λ secure. loaded-Names [] _))))))))

-- Either every setting of `applyEnvOverrides` that has a variable is what that variable says where
-- it is set, and what it was where it is not, and all else stays; or the first variable that is
-- set to a text that is not well formed, in the order of the source, is reported.
pub apply_env_overrides_ends :
    (lower getenv : String → String) (c : Config)
    → OverrideEnds lower getenv c (apply_env_overrides lower getenv c)
unfolding apply_env_overrides
apply_env_overrides_ends lower getenv c = ends (read_all lower getenv c) refl
  where
    ends :
        (o : Outcome Readings)
        → read_all lower getenv c ≡ o
        → OverrideEnds lower getenv c (o >>= λ r. loaded (with_readings lower getenv r c))
    ends (loaded r) h = overridden _ refl (with_readings-IsOverridden lower getenv c r h)
    ends (refused e) h =
        let (v, this, found) = read_all-Names lower getenv c e h in malformed v (rw this refl) found
