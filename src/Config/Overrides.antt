-- ===== src/Config/Overrides.antt =====
-- config/config.go: what `applyEnvOverrides` leaves in the settings.
use go_user_system.Common.{String, ◌≡◌, refl, arith}
use go_user_system.Config.{Config}
use go_user_system.Config.Environment.{
  Outcome, loaded, refused, ◌>>=◌, Readings, read_variable, optional, parse_bool, read_number,
  read_flag, read_all, with_readings, apply_env_overrides,
}

pub bind-loaded :
    {A B : Type 0} (m : Outcome A) (k : A → Outcome B) (b : B)
    → (m >>= k) ≡ loaded b
    → (a : A) × (m ≡ loaded a) × (k a ≡ loaded b)
bind-loaded (loaded a) k b h = (a, refl, h)
bind-loaded (refused e) k b h = absurd (cc)

loaded_injective : {A : Type 0} {a b : A} → loaded a ≡ loaded b → a ≡ b
loaded_injective h = cc

module _ (lower : String → String) (getenv : String → String) where
  -- The readings of settings, one by one.
  abbrev pub IsReading : Config → Readings → Type 0
  IsReading c r =
      (read_number lower getenv "APP_PORT" c.server_port ≡ loaded r.port)
      × (read_flag lower getenv "REDIS_ENABLED" c.redis.enabled ≡ loaded r.enabled)
      × (read_number lower getenv "REDIS_DB" c.redis.db ≡ loaded r.db)
      × (read_number lower getenv "JWT_EXPIRE_HOURS" c.jwt.expire_hours ≡ loaded r.hours)
      × (read_number lower getenv "JWT_ACCESS_TOKEN_EXPIRE_MINUTES"
            c.jwt.access_token_expire_minutes
          ≡ loaded r.minutes)
      × (read_number lower getenv "JWT_REFRESH_TOKEN_EXPIRE_HOURS" c.jwt.refresh_token_expire_hours
          ≡ loaded r.refresh_hours)
      × (read_variable (optional parse_bool) "REGISTRATION_ENABLED" (getenv "REGISTRATION_ENABLED")
            c.auth.registration_enabled
          ≡ loaded r.registration)
      × (read_flag lower getenv "COOKIE_SECURE" c.auth.refresh_cookie_secure ≡ loaded r.secure)

  pub read_all-IsReading :
      (c : Config) (r : Readings) → read_all lower getenv c ≡ loaded r → IsReading c r
  unfolding read_all
  read_all-IsReading c r h = ground arith

  -- The readings behind settings that are handed out.
  pub overridden_by :
      (c d : Config)
      → apply_env_overrides lower getenv c ≡ loaded d
      → (r : Readings) × (read_all lower getenv c ≡ loaded r) × (with_readings lower getenv r c ≡ d)
  unfolding apply_env_overrides
  overridden_by c d h =
      let (r, read, made) =
        bind-loaded (read_all lower getenv c) (λ r. loaded (with_readings lower getenv r c)) d h in
      (r, read, loaded_injective made)
