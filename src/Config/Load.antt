-- ===== src/Config/Load.antt =====
-- config/config.go: `Load` and `LoadEnv`. What `os.ReadFile`, `yaml.Unmarshal` and `godotenv.Load`
-- answer, the mapping to lower case and the variables are arguments.
use go_user_system.Common.{
  String, Bool, true, false, ◌&&◌, ◌||◌, not, Option, none, some, ◌≡◌, refl, arith, ◌∙◌, sym, ap,
  str_eq, all,
}
use mathlib.Core.Path.{subst}
use go_user_system.Common.Text.{trim_space, is_empty}
use go_user_system.Config.{Config, ConfigError, validate}
use go_user_system.Config.Validity.{
  is_known_environment, is_good_rate_limit, is_positive, is_good_jwt, is_good_mysql, is_good_http,
  is_good_pool, is_good_redis, has_passed, is_valid, is_good_production, validate-is_valid,
}
use go_user_system.Config.Defaults.{apply_defaults, default_environment}
use go_user_system.Config.Environment.{
  Outcome, loaded, refused, ◌>>=◌, invalid, read_config_file_failed, unmarshal_failed,
  apply_env_overrides,
}
use go_user_system.Config.Overrides.{bind-loaded, overridden_by}
use go_user_system.Config.Search.{Directory, Files, Location, resolved_path, find_file_upward}

last_holds :
    (a b c d e f g h i last : Bool)
    → (a && (b && (c && (d && (e && (f && (g && (h && (i && last))))))))) ≡ true
    → last ≡ true
last_holds a b c d e f g h i last holds = ground arith

-- What `godotenv.Load` may answer.
pub data EnvError : Type 0 where
  not_exist malformed : EnvError

-- The argument of `godotenv.Load`, where it is given one.
abbrev pub load_env_file : Files → (Option Directory → Option EnvError) → String → Option EnvError
load_env_file files load_variables name = load_variables (find_file_upward files name)

-- A file that is not there is no error.
abbrev pub env_failure : Option EnvError → Option EnvError
env_failure (some not_exist) = none
env_failure (some malformed) = some malformed
env_failure none = none

unfoldable pub load_env : Files → (Option Directory → Option EnvError) → Option EnvError
load_env files load_variables = env_failure (load_env_file files load_variables ".env")

abbrev pub validated : Option ConfigError → Config → Outcome Config
validated none c = loaded c
validated (some e) c = refused (invalid e)

module _ (lower getenv : String → String) (is_ip is_cidr : String → Bool) where
  abbrev pub finish : Config → Outcome Config
  finish c = do
    overridden ← apply_env_overrides lower getenv c
    let filled = apply_defaults lower overridden
    validated (validate is_ip is_cidr filled) filled

  abbrev pub unmarshalled : Option Config → Outcome Config
  unmarshalled none = refused unmarshal_failed
  unmarshalled (some c) = finish c

  abbrev pub load_text : {Data : Type 0} → (Data → Option Config) → Option Data → Outcome Config
  load_text unmarshal none = refused read_config_file_failed
  load_text unmarshal (some text) = unmarshalled (unmarshal text)

  unfoldable pub load :
      {Data : Type 0}
      → Files
      → (Location → Option Data)
      → (Data → Option Config)
      → String
      → Outcome Config
  load files read unmarshal path = load_text unmarshal (read (resolved_path files path))

  -- Settings that are handed out are valid, and come from settings of a file.
  record IsLoaded (c : Config) : Type 0 where
    in_file : Config
    overridden : Config
    overrides : apply_env_overrides lower getenv in_file ≡ loaded overridden
    filled : c ≡ apply_defaults lower overridden
    valid : is_valid is_ip is_cidr c ≡ true

  validated-loaded :
      (filled c : Config)
      → validated (validate is_ip is_cidr filled) filled ≡ loaded c
      → (c ≡ filled) × (is_valid is_ip is_cidr c ≡ true)
  validated-loaded filled c h =
      let same : c ≡ filled = ground arith in
      let passed : has_passed (validate is_ip is_cidr filled) ≡ true = ground arith in
      (same, rw same (sym (validate-is_valid is_ip is_cidr filled) ∙ passed))

  finish-IsLoaded : (c0 c : Config) → finish c0 ≡ loaded c → IsLoaded c
  finish-IsLoaded c0 c h =
      let (overridden, e, rest) =
        bind-loaded (apply_env_overrides lower getenv c0)
          (λ d.
            validated (validate is_ip is_cidr (apply_defaults lower d)) (apply_defaults lower d))
          c h in
      let (filled, valid) = validated-loaded (apply_defaults lower overridden) c rest in
      record {
        in_file = c0;
        overridden = overridden;
        overrides = e;
        filled = filled;
        valid = valid;
      }

  unmarshalled-IsLoaded : (o : Option Config) (c : Config) → unmarshalled o ≡ loaded c → IsLoaded c
  unmarshalled-IsLoaded none c h = absurd (cc)
  unmarshalled-IsLoaded (some c0) c h = finish-IsLoaded c0 c h

  load_text-IsLoaded :
      {Data : Type 0} (unmarshal : Data → Option Config) (file : Option Data) (c : Config)
      → load_text unmarshal file ≡ loaded c
      → IsLoaded c
  load_text-IsLoaded unmarshal none c h = absurd (cc)
  load_text-IsLoaded unmarshal (some text) c h = unmarshalled-IsLoaded (unmarshal text) c h

  environment_of :
      (c : Config)
      → IsLoaded c
      → is_empty (getenv "APP_ENV") ≡ false
      → c.environment ≡ default_environment lower (lower (trim_space (getenv "APP_ENV")))
  unfolding apply_defaults
  environment_of c h named =
      let (r, read, same) = overridden_by lower getenv h.in_file h.overridden h.overrides in
      ap (λ d. d.environment) h.filled
      ∙ ap (λ d. default_environment lower d.environment) (sym same)
      ∙ rw named refl

  valid-production : (c : Config) → is_valid is_ip is_cidr c ≡ true → is_good_production c ≡ true
  valid-production c h =
      last_holds (is_known_environment c.environment) (is_positive c.server_port)
        (is_good_jwt c.jwt) (is_good_mysql c.mysql) (is_good_http c.http) (is_good_pool c.mysql)
        (is_good_redis c.redis) (is_good_rate_limit c.auth.login_rate_limit)
        (all (λ proxy. is_ip proxy || is_cidr proxy) c.trusted_proxies) (is_good_production c) h

  -- What is asked of settings in production.
  abbrev pub IsSafe : Config → Type 0
  IsSafe c =
      (is_valid is_ip is_cidr c ≡ true)
      × (c.environment ≡ "production")
      × (c.redis.enabled ≡ true)
      × (c.auth.refresh_cookie_secure ≡ true)

  IsLoaded-IsSafe : (c : Config) → IsLoaded c → c.environment ≡ "production" → IsSafe c
  IsLoaded-IsSafe c h e =
      let good : (not (str_eq c.environment "production")
            || (c.redis.enabled && c.auth.refresh_cookie_secure))
          ≡ true =
        valid-production c h.valid in
      let both : (c.redis.enabled && c.auth.refresh_cookie_secure) ≡ true =
        subst
          (λ x.
            (not (str_eq x "production") || (c.redis.enabled && c.auth.refresh_cookie_secure))
            ≡ true)
          e good in
      (h.valid, e, ground arith, ground arith)

-- Where APP_ENV names production, `Load` hands out only settings that are valid, are those of
-- production, keep the sessions in Redis and send the refresh cookie over TLS only, whatever the
-- file says.
pub load-IsSafe :
    (lower getenv : String → String) (is_ip is_cidr : String → Bool) (files : Files) {Data : Type 0}
    (read : Location → Option Data) (unmarshal : Data → Option Config) (path : String) (c : Config)
    → is_empty (getenv "APP_ENV") ≡ false
    → default_environment lower (lower (trim_space (getenv "APP_ENV"))) ≡ "production"
    → load lower getenv is_ip is_cidr files read unmarshal path ≡ loaded c
    → IsSafe lower getenv is_ip is_cidr c
unfolding load
load-IsSafe lower getenv is_ip is_cidr files read unmarshal path c named production h =
    let l =
      load_text-IsLoaded lower getenv is_ip is_cidr unmarshal (read (resolved_path files path)) c
        h in
    IsLoaded-IsSafe lower getenv is_ip is_cidr c l
      (environment_of lower getenv is_ip is_cidr c l named ∙ production)
