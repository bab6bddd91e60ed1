-- ===== src/Config/Defaults.antt =====
-- config/config.go: `applyDefaults` and `splitCommaSeparated`. The lower case of a text is an
-- argument.
use Prim.Native.Nat.{ℕ, ◌*◌, ◌-◌, ◌%◌}
use go_user_system.Common.{String, ◌&&◌, List, [], ◌∷◌, if◌then◌else◌, leb}
use go_user_system.Common.Int.{ℤ, pos, negsuc, eq_ℤ, ltb_ℤ}
use go_user_system.Common.Text.{trim_space, is_empty, is_blank}
use go_user_system.Config.{Config, JwtConfig, HttpServerConfig, RedisConfig, LoginRateLimitConfig}

-- `if n == 0 { n = default }`
abbrev pub fill : ℤ → ℤ → ℤ
fill default n = if eq_ℤ n (pos 0) then default else n

abbrev pub fill_text : String → String → String
fill_text default s = if is_empty s then default else s

-- A product in an int of 64 bits.
abbrev pub to_int64 : ℕ → ℤ
to_int64 n =
    let k = n % 18446744073709551616 in
    if leb k 9223372036854775807 then pos k else negsuc (18446744073709551615 - k)

abbrev pub minutes : ℤ → ℤ
minutes (pos hours) = to_int64 (hours * 60)
minutes (negsuc hours) = pos 0

abbrev pub default_jwt : JwtConfig → JwtConfig
default_jwt c = record c {
  access_token_expire_minutes =
      if eq_ℤ c.access_token_expire_minutes (pos 0) && ltb_ℤ (pos 0) c.expire_hours
      then minutes c.expire_hours
      else c.access_token_expire_minutes;
  refresh_token_expire_hours = fill (pos 168) c.refresh_token_expire_hours;
  algorithm = fill_text "HS256" c.algorithm;
}

abbrev pub default_http : HttpServerConfig → HttpServerConfig
default_http c = record c {
  read_timeout = fill (pos 5000000000) c.read_timeout;
  write_timeout = fill (pos 10000000000) c.write_timeout;
  idle_timeout = fill (pos 60000000000) c.idle_timeout;
  read_header_timeout = fill (pos 2000000000) c.read_header_timeout;
  max_header_bytes_kib = fill (pos 512) c.max_header_bytes_kib;
}

abbrev pub default_redis : RedisConfig → RedisConfig
default_redis c = record c {
  address = fill_text "127.0.0.1:6379" c.address;
  dial_timeout = fill (pos 3000000000) c.dial_timeout;
  read_timeout = fill (pos 2000000000) c.read_timeout;
  write_timeout = fill (pos 2000000000) c.write_timeout;
  ping_timeout = fill (pos 3000000000) c.ping_timeout;
}

abbrev pub default_rate_limit : LoginRateLimitConfig → LoginRateLimitConfig
default_rate_limit c = record c {
  account_limit = fill (pos 5) c.account_limit;
  ip_limit = fill (pos 20) c.ip_limit;
  window = fill (pos 900000000000) c.window;
}

abbrev pub default_environment : (String → String) → String → String
default_environment lower e = if is_blank e then "development" else lower (trim_space e)

unfoldable pub apply_defaults : (String → String) → Config → Config
apply_defaults lower c = record c {
  environment = default_environment lower c.environment;
  jwt = default_jwt c.jwt;
  http = default_http c.http;
  redis = default_redis c.redis;
  auth = record c.auth { login_rate_limit = default_rate_limit c.auth.login_rate_limit };
}

-- `splitCommaSeparated`, of the parts between the commas.
unfoldable pub keep_filled : List String → List String
keep_filled [] = []
keep_filled (part ∷ parts) =
    if is_blank part then keep_filled parts else trim_space part ∷ keep_filled parts
