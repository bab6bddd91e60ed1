-- ===== src/Config/Tests.antt =====
-- Settings that are let through, and an instance of the theorem on `Validate`.
use go_user_system.Common.{String, Bool, false, none, some, [], ◌∷◌, ◌≡◌, refl, str_eq}
use go_user_system.Common.Int.{pos, negsuc}
use go_user_system.Config.{
  Config, MySqlConfig, RedisConfig, atoi, validate_proxies, validate, production_redis_required,
}
use go_user_system.Common.Text.{trim_space}
use go_user_system.Config.Defaults.{default_http, keep_filled}

abbrev my_sql : MySqlConfig
my_sql = record {
  host = "db";
  port = "3306";
  user = "app";
  database = "users";
  max_open_conns = pos 20;
  max_idle_conns = pos 10;
  conn_max_lifetime = pos 1;
  conn_max_idle_time = pos 1;
  ping_timeout = pos 1;
}

abbrev no_redis : RedisConfig
no_redis = record {
  enabled = false;
  address = "";
  password = "";
  db = pos 0;
  dial_timeout = pos 0;
  read_timeout = pos 0;
  write_timeout = pos 0;
  ping_timeout = pos 0;
}

abbrev pub settings : String → Config
settings environment = record {
  environment = environment;
  server_port = pos 8080;
  mysql = my_sql;
  redis = no_redis;
  jwt = record {
    expire_hours = pos 1;
    access_token_expire_minutes = pos 15;
    refresh_token_expire_hours = pos 168;
    algorithm = "HS256";
    secret = "0123456789abcdef0123456789abcdef";
  };
  auth = record {
    registration_enabled = none;
    login_rate_limit = record { account_limit = pos 5; ip_limit = pos 20; window = pos 900 };
    refresh_cookie_secure = false;
  };
  http = record {
    read_timeout = pos 5000000000;
    write_timeout = pos 5;
    idle_timeout = pos 5;
    read_header_timeout = pos 5;
    max_header_bytes_kib = pos 64;
    timeout = pos 5;
  };
  trusted_proxies = "10.0.0.1" ∷ [];
}

abbrev pub is_address : String → Bool
is_address = str_eq "10.0.0.1"

config_tests :
    (validate is_address (λ s. false) (settings "test") ≡ none)
    × (validate is_address (λ s. false) (settings "production") ≡ some production_redis_required)
    × (atoi "-12" ≡ some (negsuc 11))
unfolding validate validate_proxies atoi
config_tests = (refl, refl, refl)

defaults_tests :
    (default_http (record (settings "").http { read_timeout = pos 0 }) ≡ (settings "").http)
    × (keep_filled ("a " ∷ " " ∷ "b" ∷ []) ≡ "a" ∷ "b" ∷ [])
unfolding keep_filled trim_space
defaults_tests = (refl, refl)
