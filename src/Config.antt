-- ===== src/Config.antt =====
-- config/config.go: the settings, and which of them `Validate` lets through. The functions
-- `net.ParseIP` and `net.ParseCIDR` are arguments: whether they take a text.
pub mod Validity
pub mod Defaults
pub mod Environment
pub mod Overrides
pub mod Variables
pub mod Search
pub mod Load
mod Tests
mod LoadTests
use Prim.Native.Char.{Char, code}
use Prim.Native.Nat.{ℕ, zero, suc, ◌+◌, ◌*◌, ◌-◌}
use Prim.Native.String.{len, [], ◌∷◌}
use go_user_system.Common.{
  String, Bool, true, false, ◌&&◌, ◌||◌, not, Option, none, some, List, if◌then◌else◌, str_eq, ltb,
  leb, ◌==◌, [] as nil, ◌∷◌ as cons,
}
use go_user_system.Common.Int.{ℤ, pos, negsuc, leb_ℤ, ltb_ℤ, max_int64}
use go_user_system.Common.Text.{is_empty}
use go_user_system.Common.Time.{Duration}

pub record MySqlConfig : Type 0 where
  pub host : String
  pub port : String
  pub user : String
  pub database : String
  pub max_open_conns : ℤ
  pub max_idle_conns : ℤ
  pub conn_max_lifetime : Duration
  pub conn_max_idle_time : Duration
  pub ping_timeout : Duration

pub record RedisConfig : Type 0 where
  pub enabled : Bool
  pub address : String
  pub password : String
  pub db : ℤ
  pub dial_timeout : Duration
  pub read_timeout : Duration
  pub write_timeout : Duration
  pub ping_timeout : Duration

pub record LoginRateLimitConfig : Type 0 where
  pub account_limit : ℤ
  pub ip_limit : ℤ
  pub window : Duration

pub record AuthConfig : Type 0 where
  pub registration_enabled : Option Bool
  pub login_rate_limit : LoginRateLimitConfig
  pub refresh_cookie_secure : Bool

pub record JwtConfig : Type 0 where
  pub expire_hours : ℤ
  pub access_token_expire_minutes : ℤ
  pub refresh_token_expire_hours : ℤ
  pub algorithm : String
  pub secret : String

pub record HttpServerConfig : Type 0 where
  pub read_timeout : Duration
  pub write_timeout : Duration
  pub idle_timeout : Duration
  pub read_header_timeout : Duration
  pub max_header_bytes_kib : ℤ
  pub timeout : Duration

pub record Config : Type 0 where
  pub environment : String
  pub server_port : ℤ
  pub mysql : MySqlConfig
  pub redis : RedisConfig
  pub jwt : JwtConfig
  pub auth : AuthConfig
  pub http : HttpServerConfig
  pub trusted_proxies : List String

pub data ConfigError : Type 0 where
  environment_invalid : String → ConfigError
  invalid_server_port invalid_expire_hours : ConfigError
  invalid_jwt_algorithm invalid_jwt_secret : ConfigError
  mysql_host_not_found invalid_mysql_port mysql_database_not_found mysql_user_not_found :
      ConfigError
  invalid_read_timeout invalid_write_timeout invalid_idle_timeout : ConfigError
  invalid_read_header_timeout invalid_max_header_bytes invalid_timeout : ConfigError
  max_open_conns_failed max_idle_conns_failed invalid_conn_max_idle_time : ConfigError
  invalid_conn_max_lifetime invalid_ping_timeout : ConfigError
  redis_address_empty redis_db_invalid redis_timeout_invalid : ConfigError
  login_rate_limit_invalid : ConfigError
  trusted_proxy_invalid : String → ConfigError
  production_redis_required production_secure_cookie_required : ConfigError

-- `RegistrationEnabled`
abbrev pub registration_enabled : AuthConfig → Bool
registration_enabled c = elim c.registration_enabled [ none ↦ true | some enabled ↦ enabled ]

abbrev digits_from : ℕ → String → Option ℕ
digits_from n [] = some n
digits_from n (c ∷ s) =
    if leb 48 (code c) && leb (code c) 57 then digits_from (n * 10 + (code c - 48)) s else none

-- At least one digit.
abbrev digits : String → Option ℕ
digits [] = none
digits (c ∷ s) = digits_from 0 (c ∷ s)

abbrev signed : (ℕ → ℤ) → ℕ → Option ℕ → Option ℤ
signed sign bound none = none
signed sign bound (some n) = if leb n bound then some (sign n) else none

abbrev negative : ℕ → ℤ
negative zero = pos 0
negative (suc n) = negsuc n

-- `strconv.Atoi` of 64 bits.
unfoldable pub atoi : String → Option ℤ
atoi [] = none
atoi (c ∷ s) =
    if code c == 45
    then signed negative 9223372036854775808 (digits s)
    else if code c == 43
    then signed pos 9223372036854775807 (digits s)
    else signed pos 9223372036854775807 (digits (c ∷ s))

abbrev pub is_port : Option ℤ → Bool
is_port none = false
is_port (some n) = not (leb_ℤ n (pos 0)) && not (ltb_ℤ (pos 65535) n)

abbrev pub is_environment : String → Bool
is_environment e = str_eq e "development" || str_eq e "test" || str_eq e "production"

abbrev pub is_bad_pool : MySqlConfig → Bool
is_bad_pool c = ltb_ℤ c.max_idle_conns (pos 0) || ltb_ℤ c.max_open_conns c.max_idle_conns

abbrev pub is_bad_redis_time : RedisConfig → Bool
is_bad_redis_time c =
    leb_ℤ c.dial_timeout (pos 0)
    || leb_ℤ c.read_timeout (pos 0)
    || leb_ℤ c.write_timeout (pos 0)
    || leb_ℤ c.ping_timeout (pos 0)

abbrev pub is_bad_rate_limit : LoginRateLimitConfig → Bool
is_bad_rate_limit c =
    leb_ℤ c.account_limit (pos 0) || leb_ℤ c.ip_limit (pos 0) || leb_ℤ c.window (pos 0)

-- `if bad { return e }`, and what comes after it.
abbrev pub guard : Bool → ConfigError → Option ConfigError → Option ConfigError
guard bad e rest = if bad then some e else rest

abbrev pub validate_redis : RedisConfig → Option ConfigError → Option ConfigError
validate_redis c rest =
    if not c.enabled
    then rest
    else guard (is_empty c.address) redis_address_empty (
        guard (ltb_ℤ c.db (pos 0)) redis_db_invalid
          (guard (is_bad_redis_time c) redis_timeout_invalid rest))

abbrev pub validate_production : Config → Option ConfigError
validate_production c =
    if not (str_eq c.environment "production")
    then none
    else guard (not c.redis.enabled) production_redis_required
        (guard (not c.auth.refresh_cookie_secure) production_secure_cookie_required none)

module _ (is_ip is_cidr : String → Bool) where
  unfoldable pub validate_proxies : List String → Option ConfigError → Option ConfigError
  validate_proxies nil rest = rest
  validate_proxies (cons proxy proxies) rest =
      let others = validate_proxies proxies rest in
      if is_ip proxy
      then others
      else guard (not (is_cidr proxy)) (trusted_proxy_invalid proxy) others

  abbrev pub validate_mysql : MySqlConfig → Option ConfigError → Option ConfigError
  validate_mysql c rest = guard (is_empty c.host) mysql_host_not_found (
      guard (not (is_port (atoi c.port))) invalid_mysql_port (
        guard (is_empty c.database) mysql_database_not_found
          (guard (is_empty c.user) mysql_user_not_found rest)))

  abbrev pub validate_http : HttpServerConfig → Option ConfigError → Option ConfigError
  validate_http c rest = guard (leb_ℤ c.read_timeout (pos 0)) invalid_read_timeout (
      guard (leb_ℤ c.write_timeout (pos 0)) invalid_write_timeout (
        guard (leb_ℤ c.idle_timeout (pos 0)) invalid_idle_timeout (
          guard (leb_ℤ c.read_header_timeout (pos 0)) invalid_read_header_timeout (
            guard (leb_ℤ c.max_header_bytes_kib (pos 0)) invalid_max_header_bytes
              (guard (leb_ℤ c.timeout (pos 0)) invalid_timeout rest)))))

  abbrev pub validate_pool : MySqlConfig → Option ConfigError → Option ConfigError
  validate_pool c rest = guard (leb_ℤ c.max_open_conns (pos 0)) max_open_conns_failed (
      guard (is_bad_pool c) max_idle_conns_failed (
        guard (leb_ℤ c.conn_max_idle_time (pos 0)) invalid_conn_max_idle_time (
          guard (leb_ℤ c.conn_max_lifetime (pos 0)) invalid_conn_max_lifetime
            (guard (leb_ℤ c.ping_timeout (pos 0)) invalid_ping_timeout rest))))

  abbrev pub validate_jwt : JwtConfig → Option ConfigError → Option ConfigError
  validate_jwt c rest = guard (leb_ℤ c.expire_hours (pos 0)) invalid_expire_hours (
      guard (leb_ℤ c.access_token_expire_minutes (pos 0)) invalid_expire_hours (
        guard (leb_ℤ c.refresh_token_expire_hours (pos 0)) invalid_expire_hours (
          guard (not (str_eq c.algorithm "HS256")) invalid_jwt_algorithm
            (guard (ltb (len c.secret) 32) invalid_jwt_secret rest))))

  unfoldable pub validate : Config → Option ConfigError
  validate c = guard (not (is_environment c.environment)) (environment_invalid c.environment) (
      guard (leb_ℤ c.server_port (pos 0)) invalid_server_port (
        validate_jwt c.jwt (
          validate_mysql c.mysql (
            validate_http c.http (
              validate_pool c.mysql (
                validate_redis c.redis (
                  guard (is_bad_rate_limit c.auth.login_rate_limit) login_rate_limit_invalid
                    (validate_proxies c.trusted_proxies (validate_production c)))))))))
