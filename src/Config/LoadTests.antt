-- ===== src/Config/LoadTests.antt =====
-- Settings that are searched for, read and overridden, and instances of the theorems on them.
use go_user_system.Common.{
  String, true, false, ◌||◌, Option, none, some, [], ◌∷◌, ◌≡◌, refl, arith, str_eq, if◌then◌else◌,
}
use go_user_system.Common.Int.{pos}
use go_user_system.Common.Text.{trim_space, is_empty, strip_prefix}
use go_user_system.Config.{Config, atoi, validate, validate_proxies}
use go_user_system.Config.Defaults.{default_environment, apply_defaults, keep_filled}
use go_user_system.Config.Environment.{
  parse_bool, loaded, refused, invalid_variable, split_from, split_comma_separated, read_variable,
  read_all, apply_env_overrides,
}
use go_user_system.Config.Variables.{OverrideEnds}
use go_user_system.Config.Variables.Ends.{apply_env_overrides_ends}
use go_user_system.Config.Search.{
  Directory, Files, Location, found, join, search_start_dirs, find_file_upward_from, find_in,
  find_file_upward, resolved_path,
}
use go_user_system.Config.Search.Nearest.{first_file, upward, find_file_upward_from_ends}
use go_user_system.Config.Load.{IsSafe, load, load_env, not_exist, malformed, load-IsSafe}
use go_user_system.Config.Tests.{is_address, settings}

abbrev same_text : String → String
same_text s = s

abbrev getenv : String → String
getenv name =
    if str_eq name "APP_ENV"
    then " production"
    else if str_eq name "APP_PORT"
    then "9090"
    else if str_eq name "REDIS_ENABLED" || str_eq name "COOKIE_SECURE"
    then "true"
    else if str_eq name "TRUSTED_PROXIES"
    then "10.0.0.1, ,10.0.0.1"
    else ""

abbrev bad_port : String → String
bad_port name = if str_eq name "APP_PORT" then "90x" else ""

abbrev overridden : Config
overridden = record (settings "test") {
  environment = "production";
  server_port = pos 9090;
  redis = record (settings "test").redis { enabled = true };
  auth = record (settings "test").auth { refresh_cookie_secure = true };
  trusted_proxies = "10.0.0.1" ∷ "10.0.0.1" ∷ [];
}

overrides_lem : apply_env_overrides same_text getenv (settings "test") ≡ loaded overridden
unfolding parse_bool apply_env_overrides read_all read_variable atoi trim_space
    split_comma_separated split_from keep_filled
overrides_lem = refl

bad_port_test :
    apply_env_overrides same_text bad_port (settings "test") ≡ refused (invalid_variable "APP_PORT")
unfolding parse_bool apply_env_overrides read_all read_variable atoi
bad_port_test = refl

apply_env_overrides_ends_example :
    OverrideEnds same_text getenv
      (settings "test")
      (apply_env_overrides same_text getenv (settings "test"))
apply_env_overrides_ends_example = apply_env_overrides_ends same_text getenv (settings "test")

-- A process in /srv/app/cmd, with its settings in /srv/app/config.yaml.
abbrev files : Files
files = record {
  exists = λ path. false;
  is_file = λ path. elim path [ name ∷ dir ↦ str_eq name "config.yaml" | [] ↦ false ];
  working_directory = some "/srv/app/cmd";
  caller_file = none;
  executable = some "/srv/app/cmd/server";
}

abbrev working_dir : Directory
working_dir = "cmd" ∷ "app" ∷ "srv" ∷ []

abbrev in_app : Files
in_app = record files {
  is_file = λ path. elim path [
    | [] ↦ false
    | name ∷ dir ↦ elim dir [ [] ↦ false | next ∷ rest ↦ str_eq next "app" ]
  ];
}

search_tests :
    (search_start_dirs files ≡ working_dir ∷ [])
    × (find_file_upward in_app "config.yaml" ≡ some ("config.yaml" ∷ "app" ∷ "srv" ∷ []))
    × (resolved_path in_app "./config.yaml" ≡ found ("config.yaml" ∷ "app" ∷ "srv" ∷ []))
unfolding resolved_path find_file_upward find_in search_start_dirs find_file_upward_from join
    split_from strip_prefix
search_tests = (refl, refl, refl)

find_file_upward_from_ends_example :
    find_file_upward_from in_app 4 working_dir "config.yaml"
    ≡ some (first_file in_app "config.yaml" (upward working_dir))
find_file_upward_from_ends_example =
    find_file_upward_from_ends in_app 4 working_dir "config.yaml" (omega arith)

env_tests :
    (load_env in_app (λ path. some not_exist) ≡ none)
    × (load_env in_app (λ path. some malformed) ≡ some malformed)
unfolding load_env
env_tests = (refl, refl)

-- The content of a file is the settings themselves.
abbrev read : Location → Option Config
read path = some (settings "test")

abbrev in_production : Config
in_production = apply_defaults same_text overridden

load_lem :
    load same_text getenv is_address (λ s. false) in_app read (λ c. some c) "config.yaml"
    ≡ loaded in_production
unfolding parse_bool load apply_env_overrides read_all read_variable atoi trim_space
    split_comma_separated split_from keep_filled apply_defaults validate validate_proxies
    resolved_path find_file_upward find_in search_start_dirs find_file_upward_from join strip_prefix
load_lem = refl

named : is_empty (getenv "APP_ENV") ≡ false
named = refl

production :
    default_environment same_text (same_text (trim_space (getenv "APP_ENV"))) ≡ "production"
unfolding trim_space
production = refl

load-IsSafe_example : IsSafe same_text getenv is_address (λ s. false) in_production
load-IsSafe_example =
    load-IsSafe same_text getenv is_address (λ s. false) in_app read (λ c. some c) "config.yaml"
      in_production named production load_lem
