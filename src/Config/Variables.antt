-- ===== src/Config/Variables.antt =====
-- config/config.go: what each variable of the environment does to the settings in
-- `applyEnvOverrides`, and which one is reported.
pub mod Ends
use go_user_system.Common.{
  ℕ, zero, suc, String, Bool, true, false, ◌&&◌, not, Option, none, some, List, [], ◌∷◌, first, ◌≡◌,
  ◌≢◌, refl, arith, Bool-cases, inl, inr, ◌⊎◌, eq_iff, Option-cases,
}
use go_user_system.Common.Int.{ℤ}
use go_user_system.Common.Text.{trim_space, is_empty}
use go_user_system.Config.{Config, atoi}
use go_user_system.Config.Environment.{
  Outcome, loaded, refused, LoadError, invalid_variable, ◌>>=◌, Readings, parsed, read_variable,
  optional, parse_bool, split_comma_separated, read_number, read_flag, read_all, set_text,
  set_environment, set_proxies, with_readings, apply_env_overrides,
}
use go_user_system.Config.Overrides.{read_all-IsReading}

-- A variable that may be malformed, and whether a text is well formed for it.
pub record Variable : Type 0 where
  pub name : String
  pub accepts : String → Bool

abbrev pub is_number : String → Bool
is_number v = elim (atoi v) [ none ↦ false | some n ↦ true ]

abbrev pub is_flag : String → Bool
is_flag v = elim (parse_bool v) [ none ↦ false | some b ↦ true ]

abbrev pub variables : List Variable
variables =
    record { name = "APP_PORT"; accepts = is_number }
    ∷ record { name = "REDIS_ENABLED"; accepts = is_flag }
    ∷ record { name = "REDIS_DB"; accepts = is_number }
    ∷ record { name = "JWT_EXPIRE_HOURS"; accepts = is_number }
    ∷ record { name = "JWT_ACCESS_TOKEN_EXPIRE_MINUTES"; accepts = is_number }
    ∷ record { name = "JWT_REFRESH_TOKEN_EXPIRE_HOURS"; accepts = is_number }
    ∷ record { name = "REGISTRATION_ENABLED"; accepts = is_flag }
    ∷ record { name = "COOKIE_SECURE"; accepts = is_flag }
    ∷ []

module _ (lower getenv : String → String) where
  -- Set, to a text that is not well formed.
  abbrev pub is_malformed : Variable → Bool
  is_malformed v = not (is_empty (getenv v.name)) && not (v.accepts (getenv v.name))

  -- A setting is what the variable says where it is set, and stays where it is not.
  abbrev pub IsChosen : {A : Type 0} → (String → Option A) → String → A → A → Type 0
  IsChosen parse name old new =
      ((getenv name ≡ "") × (new ≡ old)) ⊎ ((getenv name ≢ "") × (parse (getenv name) ≡ some new))

  pub record IsOverridden (c d : Config) : Type 0 where
    pub environment :
        IsChosen (λ v. some (lower (trim_space v))) "APP_ENV" c.environment d.environment
    pub server_port : IsChosen atoi "APP_PORT" c.server_port d.server_port
    pub mysql_host : IsChosen some "DB_HOST" c.mysql.host d.mysql.host
    pub mysql_port : IsChosen some "DB_PORT" c.mysql.port d.mysql.port
    pub mysql_user : IsChosen some "DB_USER" c.mysql.user d.mysql.user
    pub mysql_database : IsChosen some "DB_NAME" c.mysql.database d.mysql.database
    pub redis_enabled : IsChosen parse_bool "REDIS_ENABLED" c.redis.enabled d.redis.enabled
    pub redis_address : IsChosen some "REDIS_ADDR" c.redis.address d.redis.address
    pub redis_password : IsChosen some "REDIS_PASSWORD" c.redis.password d.redis.password
    pub redis_db : IsChosen atoi "REDIS_DB" c.redis.db d.redis.db
    pub expire_hours : IsChosen atoi "JWT_EXPIRE_HOURS" c.jwt.expire_hours d.jwt.expire_hours
    pub access_token_expire_minutes :
        IsChosen atoi "JWT_ACCESS_TOKEN_EXPIRE_MINUTES" c.jwt.access_token_expire_minutes
          d.jwt.access_token_expire_minutes
    pub refresh_token_expire_hours :
        IsChosen atoi "JWT_REFRESH_TOKEN_EXPIRE_HOURS" c.jwt.refresh_token_expire_hours
          d.jwt.refresh_token_expire_hours
    pub secret : IsChosen some "JWT_SECRET" c.jwt.secret d.jwt.secret
    pub registration_enabled :
        IsChosen
          (optional parse_bool)
          "REGISTRATION_ENABLED"
          c.auth.registration_enabled
          d.auth.registration_enabled
    pub cookie_secure :
        IsChosen parse_bool "COOKIE_SECURE" c.auth.refresh_cookie_secure
          d.auth.refresh_cookie_secure
    pub trusted_proxies :
        IsChosen
          (λ v. some (split_comma_separated v))
          "TRUSTED_PROXIES"
          c.trusted_proxies
          d.trusted_proxies
    -- What no variable sets.
    pub pool :
        record c.mysql { host = ""; port = ""; user = ""; database = "" }
        ≡ record d.mysql { host = ""; port = ""; user = ""; database = "" }
    pub redis_times :
        record c.redis { enabled = false; address = ""; password = ""; db = d.redis.db }
        ≡ record d.redis { enabled = false; address = ""; password = "" }
    pub algorithm : d.jwt.algorithm ≡ c.jwt.algorithm
    pub login_rate_limit : d.auth.login_rate_limit ≡ c.auth.login_rate_limit
    pub http : d.http ≡ c.http

  -- Settings with every variable in its place; or the first variable that is malformed.
  pub data OverrideEnds (c : Config) (o : Outcome Config) : Type 0 where
    overridden : (d : Config) → o ≡ loaded d → IsOverridden c d → OverrideEnds c o
    malformed :
        (v : Variable)
        → o ≡ refused (invalid_variable v.name)
        → first is_malformed variables ≡ some v
        → OverrideEnds c o

  empty_text : (s : String) → is_empty s ≡ true → s ≡ ""
  empty_text s h = ground (arith, eq_iff s "")

  full_text : (s : String) → is_empty s ≡ false → s ≢ ""
  full_text s h e = ground (arith, eq_iff s "")

  read_variable-IsChosen :
      {A : Type 0} (parse : String → Option A) (name : String) (old new : A)
      → read_variable parse name (getenv name) old ≡ loaded new
      → IsChosen parse name old new
  unfolding read_variable
  read_variable-IsChosen parse name old new h = elim (Bool-cases (is_empty (getenv name))) [
    | inl e ↦ inl (empty_text (getenv name) e, loaded_value (rw e at h))
    | inr f ↦
        inr (full_text (getenv name) f, parsed_value name (parse (getenv name)) new (rw f at h))
  ]
    where
      loaded_value : {A : Type 0} {a b : A} → loaded a ≡ loaded b → b ≡ a
      loaded_value h = cc

      parsed_value :
          {A : Type 0} (name : String) (o : Option A) (a : A)
          → parsed name o ≡ loaded a
          → o ≡ some a
      parsed_value name none a h = absurd (cc)
      parsed_value name (some b) a h = cc

  set_text-IsChosen : (name old : String) → IsChosen some name old (set_text lower getenv name old)
  set_text-IsChosen name old = elim (Bool-cases (is_empty (getenv name))) [
    | inl e ↦ inl (empty_text (getenv name) e, rw e refl)
    | inr f ↦ inr (full_text (getenv name) f, rw f refl)
  ]

  set_environment-IsChosen :
      (old : String)
      → IsChosen (λ v. some (lower (trim_space v))) "APP_ENV" old (set_environment lower getenv old)
  set_environment-IsChosen old = elim (Bool-cases (is_empty (getenv "APP_ENV"))) [
    | inl e ↦ inl (empty_text (getenv "APP_ENV") e, rw e refl)
    | inr f ↦ inr (full_text (getenv "APP_ENV") f, rw f refl)
  ]

  set_proxies-IsChosen :
      (old : List String)
      → IsChosen
          (λ v. some (split_comma_separated v))
          "TRUSTED_PROXIES"
          old
          (set_proxies lower getenv old)
  set_proxies-IsChosen old = elim (Bool-cases (is_empty (getenv "TRUSTED_PROXIES"))) [
    | inl e ↦ inl (empty_text (getenv "TRUSTED_PROXIES") e, rw e refl)
    | inr f ↦ inr (full_text (getenv "TRUSTED_PROXIES") f, rw f refl)
  ]

  pub with_readings-IsOverridden :
      (c : Config) (r : Readings)
      → read_all lower getenv c ≡ loaded r
      → IsOverridden c (with_readings lower getenv r c)
  with_readings-IsOverridden c r h =
      let (port, enabled, db, hours, minutes, refresh_hours, registration, secure) =
        read_all-IsReading lower getenv c r h in
      record {
        environment = set_environment-IsChosen c.environment;
        server_port = read_variable-IsChosen atoi _ _ _ port;
        mysql_host = set_text-IsChosen "DB_HOST" c.mysql.host;
        mysql_port = set_text-IsChosen "DB_PORT" c.mysql.port;
        mysql_user = set_text-IsChosen "DB_USER" c.mysql.user;
        mysql_database = set_text-IsChosen "DB_NAME" c.mysql.database;
        redis_enabled = read_variable-IsChosen parse_bool _ _ _ enabled;
        redis_address = set_text-IsChosen "REDIS_ADDR" c.redis.address;
        redis_password = set_text-IsChosen "REDIS_PASSWORD" c.redis.password;
        redis_db = read_variable-IsChosen atoi _ _ _ db;
        expire_hours = read_variable-IsChosen atoi _ _ _ hours;
        access_token_expire_minutes = read_variable-IsChosen atoi _ _ _ minutes;
        refresh_token_expire_hours = read_variable-IsChosen atoi _ _ _ refresh_hours;
        secret = set_text-IsChosen "JWT_SECRET" c.jwt.secret;
        registration_enabled = read_variable-IsChosen (optional parse_bool) _ _ _ registration;
        cookie_secure = read_variable-IsChosen parse_bool _ _ _ secure;
        trusted_proxies = set_proxies-IsChosen c.trusted_proxies;
        pool = refl;
        redis_times = refl;
        algorithm = refl;
        login_rate_limit = refl;
        http = refl;
      }
