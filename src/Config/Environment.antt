-- ===== src/Config/Environment.antt =====
-- config/config.go: `applyEnvOverrides` and `splitCommaSeparated`. The variables of the process are
-- an argument, with the empty text for one that is not set, as `os.Getenv` has it.
use Prim.Native.Char.{code}
use Prim.Native.Nat.{ℕ}
use Prim.Native.String.{[], ◌∷◌}
use go_user_system.Common.{
  String, Bool, true, false, ◌||◌, Option, none, some, List, [] as nil, ◌∷◌ as cons, if◌then◌else◌,
  str_eq, ◌==◌,
}
use go_user_system.Common.Int.{ℤ}
use go_user_system.Common.Text.{trim_space, is_empty}
use go_user_system.Config.{Config, ConfigError, MySqlConfig, atoi}
use go_user_system.Config.Defaults.{fill_text, keep_filled}

-- The errors of `Load`: a variable that cannot be read is named.
pub data LoadError : Type 0 where
  invalid_variable : String → LoadError
  read_config_file_failed unmarshal_failed : LoadError
  invalid : ConfigError → LoadError

pub data Outcome (A : Type 0) : Type 0 where
  loaded : A → Outcome A
  refused : LoadError → Outcome A

infixl 5 ◌>>=◌
abbrev pub ◌>>=◌ : {A B : Type 0} → Outcome A → (A → Outcome B) → Outcome B
loaded a >>= k = k a
refused e >>= k = refused e

-- `strconv.ParseBool`
unfoldable pub parse_bool : String → Option Bool
parse_bool s =
    if str_eq s "1"
      || str_eq s "t"
      || str_eq s "T"
      || str_eq s "true"
      || str_eq s "TRUE"
      || str_eq s "True"
    then some true
    else if str_eq s "0"
        || str_eq s "f"
        || str_eq s "F"
        || str_eq s "false"
        || str_eq s "FALSE"
        || str_eq s "False"
    then some false
    else none

-- The parts of a text between the characters of a code, of a text that follows the characters of a
-- first part.
unfoldable pub split_from : ℕ → String → (String → String) → List String
split_from separator [] before = cons (before "") nil
split_from separator (c ∷ s) before =
    if code c == separator
    then cons (before "") (split_from separator s (λ t. t))
    else split_from separator s (λ t. before (c ∷ t))

-- `strings.Split`, by one character.
abbrev pub split : ℕ → String → List String
split separator s = split_from separator s (λ t. t)

unfoldable pub split_comma_separated : String → List String
split_comma_separated s = keep_filled (split 44 s)

-- A variable that is parsed: the old value stands where the variable is not set.
abbrev pub parsed : {A : Type 0} → String → Option A → Outcome A
parsed name none = refused (invalid_variable name)
parsed name (some a) = loaded a

unfoldable pub read_variable : {A : Type 0} → (String → Option A) → String → String → A → Outcome A
read_variable parse name v old = if is_empty v then loaded old else parsed name (parse v)

abbrev pub optional : (String → Option Bool) → String → Option (Option Bool)
optional parse v = elim (parse v) [ none ↦ none | some b ↦ some (some b) ]

-- What the variables that can be malformed say, in the order in which they are read.
pub record Readings : Type 0 where
  pub port : ℤ
  pub enabled : Bool
  pub db : ℤ
  pub hours : ℤ
  pub minutes : ℤ
  pub refresh_hours : ℤ
  pub registration : Option Bool
  pub secure : Bool

module _ (lower : String → String) (getenv : String → String) where
  abbrev pub set_text : String → String → String
  set_text name old = fill_text old (getenv name)

  abbrev pub set_environment : String → String
  set_environment old = let v = getenv "APP_ENV" in if is_empty v then old else lower (trim_space v)

  abbrev pub set_proxies : List String → List String
  set_proxies old =
      let v = getenv "TRUSTED_PROXIES" in if is_empty v then old else split_comma_separated v

  abbrev pub set_mysql : MySqlConfig → MySqlConfig
  set_mysql c = record c {
    host = set_text "DB_HOST" c.host;
    port = set_text "DB_PORT" c.port;
    user = set_text "DB_USER" c.user;
    database = set_text "DB_NAME" c.database;
  }

  abbrev pub read_number : String → ℤ → Outcome ℤ
  read_number name = read_variable atoi name (getenv name)

  abbrev pub read_flag : String → Bool → Outcome Bool
  read_flag name = read_variable parse_bool name (getenv name)

  unfoldable pub read_all : Config → Outcome Readings
  read_all c = do
    port ← read_number "APP_PORT" c.server_port
    enabled ← read_flag "REDIS_ENABLED" c.redis.enabled
    db ← read_number "REDIS_DB" c.redis.db
    hours ← read_number "JWT_EXPIRE_HOURS" c.jwt.expire_hours
    minutes ← read_number "JWT_ACCESS_TOKEN_EXPIRE_MINUTES" c.jwt.access_token_expire_minutes
    refresh_hours ← read_number "JWT_REFRESH_TOKEN_EXPIRE_HOURS" c.jwt.refresh_token_expire_hours
    registration ←
        read_variable (optional parse_bool) "REGISTRATION_ENABLED" (getenv "REGISTRATION_ENABLED")
          c.auth.registration_enabled
    secure ← read_flag "COOKIE_SECURE" c.auth.refresh_cookie_secure
    loaded (record {
      port = port;
      enabled = enabled;
      db = db;
      hours = hours;
      minutes = minutes;
      refresh_hours = refresh_hours;
      registration = registration;
      secure = secure;
    })

  abbrev pub with_readings : Readings → Config → Config
  with_readings r c = record c {
    environment = set_environment c.environment;
    server_port = r.port;
    mysql = set_mysql c.mysql;
    redis = record c.redis {
      enabled = r.enabled;
      address = set_text "REDIS_ADDR" c.redis.address;
      password = set_text "REDIS_PASSWORD" c.redis.password;
      db = r.db;
    };
    jwt = record c.jwt {
      expire_hours = r.hours;
      access_token_expire_minutes = r.minutes;
      secret = set_text "JWT_SECRET" c.jwt.secret;
      refresh_token_expire_hours = r.refresh_hours;
    };
    auth = record c.auth {
      registration_enabled = r.registration;
      refresh_cookie_secure = r.secure;
    };
    trusted_proxies = set_proxies c.trusted_proxies;
  }

  -- After an error the settings are given up, so they are written when all has been read.
  unfoldable pub apply_env_overrides : Config → Outcome Config
  apply_env_overrides c = read_all c >>= λ r. loaded (with_readings r c)
