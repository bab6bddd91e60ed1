-- ===== src/Config/Validity.antt =====
-- `Validate` against the conditions that settings must meet, in any order.
use Prim.Native.String.{len}
use go_user_system.Common.{
  String, Bool, true, false, ◌&&◌, ◌||◌, not, Option, none, some, List, [], ◌∷◌, all, any, str_eq,
  ltb, ◌≡◌, refl, arith, ◌∙◌, ap,
}
use go_user_system.Common.Int.{ℤ, pos, leb_ℤ, ltb_ℤ}
use go_user_system.Common.Text.{is_empty}
use go_user_system.Config.{
  Config, ConfigError, MySqlConfig, RedisConfig, JwtConfig, HttpServerConfig, guard, is_environment,
  LoginRateLimitConfig, atoi, is_bad_rate_limit, validate_jwt, validate_mysql, validate_http,
  validate_pool, validate_redis, validate_proxies, validate_production, validate,
  login_rate_limit_invalid, environment_invalid, invalid_server_port,
}

abbrev pub is_positive : ℤ → Bool
is_positive n = ltb_ℤ (pos 0) n

abbrev pub is_good_jwt : JwtConfig → Bool
is_good_jwt c =
    is_positive c.expire_hours
    && is_positive c.access_token_expire_minutes
    && is_positive c.refresh_token_expire_hours
    && str_eq c.algorithm "HS256"
    && not (ltb (len c.secret) 32)

abbrev pub is_tcp_port : Option ℤ → Bool
is_tcp_port none = false
is_tcp_port (some n) = is_positive n && ltb_ℤ n (pos 65536)

abbrev pub is_good_mysql : MySqlConfig → Bool
is_good_mysql c =
    not (is_empty c.host)
    && is_tcp_port (atoi c.port)
    && not (is_empty c.database)
    && not (is_empty c.user)

abbrev pub is_good_pool : MySqlConfig → Bool
is_good_pool c =
    is_positive c.max_open_conns
    && leb_ℤ (pos 0) c.max_idle_conns
    && leb_ℤ c.max_idle_conns c.max_open_conns
    && is_positive c.conn_max_idle_time
    && is_positive c.conn_max_lifetime
    && is_positive c.ping_timeout

abbrev pub is_good_http : HttpServerConfig → Bool
is_good_http c =
    is_positive c.read_timeout
    && is_positive c.write_timeout
    && is_positive c.idle_timeout
    && is_positive c.read_header_timeout
    && is_positive c.max_header_bytes_kib
    && is_positive c.timeout

abbrev pub is_good_redis : RedisConfig → Bool
is_good_redis c =
    not c.enabled
    || (not (is_empty c.address)
        && leb_ℤ (pos 0) c.db
        && is_positive c.dial_timeout
        && is_positive c.read_timeout
        && is_positive c.write_timeout
        && is_positive c.ping_timeout)

abbrev pub is_good_rate_limit : LoginRateLimitConfig → Bool
is_good_rate_limit c = is_positive c.account_limit && is_positive c.ip_limit && is_positive c.window

abbrev pub is_known_environment : String → Bool
is_known_environment e = any (str_eq e) ("production" ∷ "test" ∷ "development" ∷ [])

-- In production the sessions are kept in Redis, and the refresh cookie is sent over TLS only.
abbrev pub is_good_production : Config → Bool
is_good_production c =
    not (str_eq c.environment "production") || (c.redis.enabled && c.auth.refresh_cookie_secure)

abbrev pub is_valid : (is_ip is_cidr : String → Bool) → Config → Bool
is_valid is_ip is_cidr c =
    is_known_environment c.environment
    && (is_positive c.server_port
        && (is_good_jwt c.jwt
            && (is_good_mysql c.mysql
                && (is_good_http c.http
                    && (is_good_pool c.mysql
                        && (is_good_redis c.redis
                            && (is_good_rate_limit c.auth.login_rate_limit
                                && (all (λ proxy. is_ip proxy || is_cidr proxy) c.trusted_proxies
                                    && is_good_production c))))))))

abbrev pub has_passed : Option ConfigError → Bool
has_passed none = true
has_passed (some e) = false

chain : (good : Bool) {a b later : Bool} → a ≡ (good && b) → b ≡ later → a ≡ (good && later)
chain good p q = p ∙ ap (λ x. good && x) q

positive-passes :
    (n : ℤ) (e : ConfigError) (rest : Option ConfigError)
    → has_passed (guard (leb_ℤ n (pos 0)) e rest) ≡ (is_positive n && has_passed rest)
positive-passes n e rest = ground arith

module _ (is_ip is_cidr : String → Bool) where
  jwt_lem :
      (c : JwtConfig) (rest : Option ConfigError)
      → has_passed (validate_jwt is_ip is_cidr c rest) ≡ (is_good_jwt c && has_passed rest)
  jwt_lem c rest = ground arith

  mysql_lem :
      (c : MySqlConfig) (rest : Option ConfigError)
      → has_passed (validate_mysql is_ip is_cidr c rest) ≡ (is_good_mysql c && has_passed rest)
  mysql_lem c rest = ground arith

  http_lem :
      (c : HttpServerConfig) (rest : Option ConfigError)
      → has_passed (validate_http is_ip is_cidr c rest) ≡ (is_good_http c && has_passed rest)
  http_lem c rest = ground arith

  pool_lem :
      (c : MySqlConfig) (rest : Option ConfigError)
      → has_passed (validate_pool is_ip is_cidr c rest) ≡ (is_good_pool c && has_passed rest)
  pool_lem c rest = ground arith

  redis_lem :
      (c : RedisConfig) (rest : Option ConfigError)
      → has_passed (validate_redis c rest) ≡ (is_good_redis c && has_passed rest)
  redis_lem c rest = ground arith

  environment_lem :
      (e : String) (f : ConfigError) (rest : Option ConfigError)
      → has_passed (guard (not (is_environment e)) f rest)
        ≡ (is_known_environment e && has_passed rest)
  environment_lem e f rest = ground arith

  rate_limit_lem :
      (c : LoginRateLimitConfig) (f : ConfigError) (rest : Option ConfigError)
      → has_passed (guard (is_bad_rate_limit c) f rest) ≡ (is_good_rate_limit c && has_passed rest)
  rate_limit_lem c f rest = ground arith

  production_lem : (c : Config) → has_passed (validate_production c) ≡ is_good_production c
  production_lem c = ground arith

  proxies_lem :
      (proxies : List String) (rest : Option ConfigError)
      → has_passed (validate_proxies is_ip is_cidr proxies rest)
        ≡ (all (λ proxy. is_ip proxy || is_cidr proxy) proxies && has_passed rest)
  unfolding validate_proxies
  proxies_lem [] rest = refl
  proxies_lem (proxy ∷ proxies) rest = ground (arith, proxies_lem proxies rest)

  pub validate-is_valid :
      (c : Config) → has_passed (validate is_ip is_cidr c) ≡ is_valid is_ip is_cidr c
  unfolding validate
  validate-is_valid c =
      chain (is_known_environment c.environment)
        (environment_lem c.environment (environment_invalid c.environment) _)
        (chain (is_positive c.server_port) (positive-passes c.server_port invalid_server_port _) (
          chain (is_good_jwt c.jwt) (jwt_lem c.jwt _) (
            chain (is_good_mysql c.mysql) (mysql_lem c.mysql _) (
              chain (is_good_http c.http) (http_lem c.http _) (
                chain (is_good_pool c.mysql) (pool_lem c.mysql _) (
                  chain (is_good_redis c.redis) (redis_lem c.redis _) (
                    chain (is_good_rate_limit c.auth.login_rate_limit)
                      (rate_limit_lem c.auth.login_rate_limit login_rate_limit_invalid _)
                      (chain (all (λ proxy. is_ip proxy || is_cidr proxy) c.trusted_proxies)
                        (proxies_lem c.trusted_proxies (validate_production c))
                        (production_lem c)))))))))
