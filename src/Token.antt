-- ===== src/Token.antt =====
-- internal/auth/token_manager.go: access tokens and refresh tokens as signed claims. Package jwt is
-- a parameter: it signs claims, and it checks a token's signature, issuer and times.
pub mod Parsing
pub mod Reference
mod Tests
use Prim.Native.String.{len}
use go_user_system.Common.{
  String, Bool, true, false, ◌&&◌, ◌||◌, not, Option, none, some, if◌then◌else◌, str_eq, ltb, ◌≡◌,
}
use go_user_system.Common.Int.{ℤ, pos, leb_ℤ, ltb_ℤ, ◌≤ℤ◌, ◌<ℤ◌, ◌-ℤ◌, ◌+ℤ◌}
use go_user_system.Common.Text.{trim_space, is_empty, is_blank}
use go_user_system.Common.Time.{Time, Duration, add, second}
use go_user_system.Errors.{
  Error, token, TokenError, access_token_invalid, jwt_secret_too_short, jwt_issuer_empty,
  jwt_expire_invalid, token_user_invalid, token_username_invalid, token_type_invalid,
  token_jti_invalid, token_version_invalid,
}
use go_user_system.Result.{Result, ok, err}

abbrev pub token_type_access : String
token_type_access = "access"

abbrev pub token_type_refresh : String
token_type_refresh = "refresh"

-- The fields of the program, and of the embedded registered claims those that it sets.
pub record UserClaims : Type 0 where
  pub username : String
  pub user_id : ℤ
  pub token_type : String
  pub auth_version : ℤ
  pub jti : String
  pub issuer : String
  pub issued_at : Option Time
  pub expires_at : Option Time
  pub id : String

-- `Text` stands for the strings that package jwt makes.
pub record IssuedToken (Text : Type 0) : Type 0 where
  pub token_text : Text
  pub jti : String
  pub token_type : String
  pub expires_at : Time

pub record TokenManager : Type 0 where
  pub secret : String
  pub issuer : String
  pub access_ttl : Duration
  pub refresh_ttl : Duration

-- What a token carries: the field JTI has the tag `json:"-"`.
abbrev pub carried : UserClaims → UserClaims
carried c = record c { jti = "" }

abbrev pub leeway : Duration
leeway = pos 30000000000

-- `decode` gives the claims and `token.Valid`, for a token, a secret, an issuer, a leeway and a
-- time. Its law is that a token that was signed is accepted with the secret and the issuer of its
-- claims, from its issue on, until the leeway after its expiry has passed. Times are written as
-- whole seconds, rounded down by `whole`.
pub record Jwt : Type 1 where
  pub Text : Type 0
  pub encode : UserClaims → String → Result Text
  pub decode : Text → String → String → Duration → Time → Result (UserClaims × Bool)
  pub whole : Time → Time
  pub whole_le : (t : Time) → whole t ≤ℤ t
  pub decode_lem :
      (c : UserClaims) (secret : String) (text : Text) (late : Duration) (issued expires now : Time)
      → encode c secret ≡ ok text
      → pos 0 ≤ℤ late
      → c.issued_at ≡ some issued
      → c.expires_at ≡ some expires
      → issued ≤ℤ now
      → now <ℤ add (whole expires) late
      → decode text secret c.issuer late now
        ≡ ok (
          record (carried c) { issued_at = some (whole issued); expires_at = some (whole expires) },
          true,
        )

abbrev pub fails : {A : Type 0} → TokenError → Result A
fails e = err (token e)

abbrev pub has_no_time : UserClaims → Bool
has_no_time c = elim c.expires_at [
  | none ↦ true
  | some t ↦ elim c.issued_at [ none ↦ true | some u ↦ false ]
]

abbrev pub with_jti : UserClaims → UserClaims
with_jti c = if is_blank c.jti then record c { jti = c.id } else c

-- The end of `parseToken`, for claims whose identifier has been taken from the standard claim.
abbrev pub check_jti : UserClaims → Result UserClaims
check_jti c =
    if is_blank c.jti || is_empty c.id
    then fails token_jti_invalid
    else if not (str_eq c.id c.jti)
    then fails token_jti_invalid
    else ok c

abbrev pub check_claims : UserClaims × Bool → Result UserClaims
check_claims (c, valid) =
    if not valid
    then fails access_token_invalid
    else if has_no_time c
    then fails access_token_invalid
    else if leb_ℤ c.user_id (pos 0)
    then fails token_user_invalid
    else if is_blank c.username
    then fails token_username_invalid
    else if not (str_eq c.token_type token_type_access)
        && not (str_eq c.token_type token_type_refresh)
    then fails token_type_invalid
    else if leb_ℤ c.auth_version (pos 0)
    then fails token_version_invalid
    else check_jti (with_jti c)

abbrev pub and_then : {A B : Type 0} → Result A → (A → Result B) → Result B
and_then (ok a) k = k a
and_then (err e) k = err e

unfoldable pub new_token_manager_with_ttl :
    String → String → Duration → Duration → Result TokenManager
new_token_manager_with_ttl given issuer access_ttl refresh_ttl =
    if ltb (len (trim_space given)) 32
    then fails jwt_secret_too_short
    else if is_empty issuer
    then fails jwt_issuer_empty
    else if leb_ℤ access_ttl (pos 0) || leb_ℤ refresh_ttl (pos 0)
    then fails jwt_expire_invalid
    else ok (record {
      secret = trim_space given;
      issuer = issuer;
      access_ttl = access_ttl;
      refresh_ttl = refresh_ttl;
    })

module _ (jwt : Jwt) (m : TokenManager) where
  open jwt use {Text}

  abbrev pub claims_of : ℤ → String → ℤ → String → Duration → Time → String → UserClaims
  claims_of user_id username auth_version token_type ttl now jti = record {
    username = username;
    user_id = user_id;
    token_type = token_type;
    auth_version = auth_version;
    jti = jti;
    issuer = m.issuer;
    issued_at = some now;
    expires_at = some (add now ttl);
    id = jti;
  }

  abbrev pub issued : String → String → Time → Text → Result (IssuedToken Text)
  issued jti token_type expires_at text =
      ok (record { token_text = text; jti = jti; token_type = token_type; expires_at = expires_at })

  -- The identifier is the fresh UUID.
  unfoldable pub generate_token :
      ℤ → String → ℤ → String → Duration → Time → String → Result (IssuedToken Text)
  generate_token user_id username auth_version token_type ttl now jti =
      if leb_ℤ auth_version (pos 0)
      then fails token_version_invalid
      else and_then
          (jwt.encode (claims_of user_id username auth_version token_type ttl now jti) m.secret)
          (issued jti token_type (add now ttl))

  unfoldable pub generate_access_token_issue :
      ℤ → String → ℤ → Time → String → Result (IssuedToken Text)
  generate_access_token_issue user_id username auth_version now jti =
      generate_token user_id username auth_version token_type_access m.access_ttl now jti

  unfoldable pub generate_refresh_token : ℤ → String → ℤ → Time → String → Result (IssuedToken Text)
  generate_refresh_token user_id username auth_version now jti =
      generate_token user_id username auth_version token_type_refresh m.refresh_ttl now jti

  unfoldable pub parse_token : Text → Time → Result UserClaims
  parse_token text now = and_then (jwt.decode text m.secret m.issuer leeway now) check_claims

  abbrev pub of_type : String → TokenError → UserClaims → Result UserClaims
  of_type token_type e c = if not (str_eq c.token_type token_type) then fails e else ok c

  unfoldable pub parse_access_token : Text → Time → Result UserClaims
  parse_access_token text now =
      and_then (parse_token text now) (of_type token_type_access access_token_invalid)

  unfoldable pub parse_refresh_token : Text → Time → Result UserClaims
  parse_refresh_token text now =
      and_then (parse_token text now) (of_type token_type_refresh TokenError.refresh_token_invalid)
