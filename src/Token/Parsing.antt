-- ===== src/Token/Parsing.antt =====
-- Which tokens `ParseAccessToken` and `ParseRefreshToken` take.
use go_user_system.Common.{
  String, Bool, true, false, ◌&&◌, ◌||◌, not, some, if◌then◌else◌, str_eq, eq_iff, ◌≡◌, refl, arith,
  Bool-cases, inl, inr,
}
use text.Mathlib.TextPositions.{eq_refl}
use go_user_system.Common.Int.{ℤ, pos, leb_ℤ, ◌≤ℤ◌, ◌<ℤ◌}
use go_user_system.Common.Text.{is_empty, is_blank, trim_space}
use go_user_system.Common.Time.{Time, Duration, add}
use go_user_system.Errors.{TokenError}
use go_user_system.Result.{Result, ok, err}
use go_user_system.Token.{
  UserClaims, IssuedToken, TokenManager, Jwt, leeway, token_type_access, token_type_refresh,
  with_jti, check_jti, check_claims, and_then, claims_of, issued, generate_token,
  generate_access_token_issue, generate_refresh_token, parse_token, parse_access_token,
  parse_refresh_token, fails, has_no_time,
}

passes :
    {A : Type 0} (b : Bool) (e : TokenError) (r : Result A) (a : A)
    → (if b then fails e else r) ≡ ok a
    → (b ≡ false) × (r ≡ ok a)
passes true e r a h = absurd (cc)
passes false e r a h = (refl, h)

and_then-ok :
    {A B : Type 0} (r : Result A) (k : A → Result B) (b : B)
    → and_then r k ≡ ok b
    → (a : A) × ((r ≡ ok a) × (k a ≡ ok b))
and_then-ok (ok a) k b h = (a, (refl, h))
and_then-ok (err e) k b h = absurd (cc)

-- Claims that name a user, a version and an identifier, which is that of the standard claims.
pub record IsSound (c : UserClaims) : Type 0 where
  pub has_user : leb_ℤ c.user_id (pos 0) ≡ false
  pub has_version : leb_ℤ c.auth_version (pos 0) ≡ false
  pub has_jti : is_blank c.jti ≡ false
  pub is_standard : str_eq c.id c.jti ≡ true
  pub has_times : has_no_time c ≡ false

with_jti-user : (c : UserClaims) → (with_jti c).user_id ≡ c.user_id
with_jti-user c = ground arith

with_jti-version : (c : UserClaims) → (with_jti c).auth_version ≡ c.auth_version
with_jti-version c = ground arith

with_jti-times : (c : UserClaims) → has_no_time (with_jti c) ≡ has_no_time c
with_jti-times c = elim (Bool-cases (is_blank c.jti)) [
  | inl blank ↦ rw blank refl
  | inr full ↦ rw full refl
]

check_jti-IsSound :
    (c d : UserClaims)
    → leb_ℤ c.user_id (pos 0) ≡ false
    → leb_ℤ c.auth_version (pos 0) ≡ false
    → has_no_time c ≡ false
    → check_jti c ≡ ok d
    → IsSound d
check_jti-IsSound c d user version times h =
    let (blank, h1) = passes (is_blank c.jti || is_empty c.id) _ _ d h in
    let (other, h2) = passes (not (str_eq c.id c.jti)) _ (ok c) d h1 in
    let same : c ≡ d = cc in
    rw (← same) (record {
      has_user = user;
      has_version = version;
      has_jti = ground arith;
      is_standard = ground arith;
      has_times = times;
    })

check_claims-IsSound :
    (c d : UserClaims) (valid : Bool) → check_claims (c, valid) ≡ ok d → IsSound d
check_claims-IsSound c d valid h =
    let (a, h1) = passes (not valid) _ _ d h in
    let (b, h2) = passes (has_no_time c) _ _ d h1 in
    let (user, h3) = passes (leb_ℤ c.user_id (pos 0)) _ _ d h2 in
    let (name, h4) = passes (is_blank c.username) _ _ d h3 in
    let (kind, h5) =
      passes
        (not (str_eq c.token_type token_type_access)
          && not (str_eq c.token_type token_type_refresh))
        _ _ d h4 in
    let (version, h6) = passes (leb_ℤ c.auth_version (pos 0)) _ (check_jti (with_jti c)) d h5 in
    check_jti-IsSound (with_jti c) d (rw (with_jti-user c) user) (rw (with_jti-version c) version)
      (rw (with_jti-times c) b) h6

empty-is_blank : is_blank "" ≡ true
unfolding trim_space
empty-is_blank = refl

not_blank-is_empty : (s : String) → is_blank s ≡ false → is_empty s ≡ false
not_blank-is_empty s h = elim (Bool-cases (is_empty s)) [
  | inr full ↦ full
  | inl empty ↦ absurd (
      let same : s ≡ "" = ground (arith, eq_iff s "") in
      let k = rw (same, empty-is_blank) at h in cc)
]

nor : (a b : Bool) → (a || b) ≡ true → (not a && not b) ≡ false
nor a b h = ground arith

module _ (jwt : Jwt) (m : TokenManager) where
  -- A token is taken as an access token only if its claims name a user, a version and an identifier
  -- of the token, carry the times of its issue and its expiry, and its type is that of access tokens.
  pub parse_access_token-IsSound :
      (text : jwt.Text) (now : Time) (c : UserClaims)
      → parse_access_token jwt m text now ≡ ok c
      → IsSound c × (str_eq c.token_type token_type_access ≡ true)
  unfolding parse_access_token parse_token
  parse_access_token-IsSound text now c h =
      let (d, (parsed, typed)) = and_then-ok (parse_token jwt m text now) _ c h in
      let ((e, valid), (decoded, checked)) =
        and_then-ok (jwt.decode text m.secret m.issuer leeway now) _ d parsed in
      let (kind, same) = passes (not (str_eq d.token_type token_type_access)) _ (ok d) c typed in
      let this : d ≡ c = cc in rw (← this) (check_claims-IsSound e d valid checked, ground arith)

  abbrev pub received : ℤ → String → ℤ → String → Duration → Time → String → UserClaims
  received user_id username auth_version token_type ttl at jti =
      record (claims_of jwt m user_id username auth_version token_type ttl at jti) {
        issued_at = some (jwt.whole at);
        expires_at = some (jwt.whole (add at ttl));
      }

  accepts_own :
      (user_id auth_version : ℤ) (username token_type jti : String) (text : jwt.Text)
      (ttl : Duration) (at now : Time)
      → leb_ℤ user_id (pos 0) ≡ false
      → leb_ℤ auth_version (pos 0) ≡ false
      → is_blank username ≡ false
      → is_blank jti ≡ false
      → (str_eq token_type token_type_access || str_eq token_type token_type_refresh) ≡ true
      → jwt.encode (claims_of jwt m user_id username auth_version token_type ttl at jti) m.secret
        ≡ ok text
      → at ≤ℤ now
      → now <ℤ add (jwt.whole (add at ttl)) leeway
      → parse_token jwt m text now
        ≡ ok (received user_id username auth_version token_type ttl at jti)
  unfolding parse_token
  accepts_own user_id auth_version username token_type jti text ttl at now user version name blank
        kind signed from before =
      rw
        (
          jwt.decode_lem (claims_of jwt m user_id username auth_version token_type ttl at jti)
              m.secret text leeway at (add at ttl) now signed (omega arith) refl refl from before,
          user,
          name,
          nor (str_eq token_type token_type_access) (str_eq token_type token_type_refresh) kind,
          version,
          empty-is_blank,
          blank,
          not_blank-is_empty jti blank,
          eq_refl jti,
        )
        refl

  own_token :
      (user_id auth_version : ℤ) (username token_type jti : String) (issue : IssuedToken jwt.Text)
      (ttl : Duration) (at now : Time)
      → leb_ℤ user_id (pos 0) ≡ false
      → is_blank username ≡ false
      → is_blank jti ≡ false
      → (str_eq token_type token_type_access || str_eq token_type token_type_refresh) ≡ true
      → at ≤ℤ now
      → now <ℤ add (jwt.whole (add at ttl)) leeway
      → generate_token jwt m user_id username auth_version token_type ttl at jti ≡ ok issue
      → parse_token jwt m issue.token_text now
        ≡ ok (received user_id username auth_version token_type ttl at jti)
  unfolding generate_token
  own_token user_id auth_version username token_type jti issue ttl at now user name blank kind from
        before made =
      let claims = claims_of jwt m user_id username auth_version token_type ttl at jti in
      let (version, h) =
        passes (leb_ℤ auth_version (pos 0)) _
          (and_then (jwt.encode claims m.secret) (issued jwt m jti token_type (add at ttl))) issue
          made in
      let (text, (signed, shape)) =
        and_then-ok (jwt.encode claims m.secret) (issued jwt m jti token_type (add at ttl)) issue
          h in
      let this : issue.token_text ≡ text = cc in
      rw this (
        accepts_own user_id auth_version username token_type jti text ttl at now user version name
          blank kind signed from before)

  -- An access token that the manager has issued for a user is taken back as an access token, with
  -- the user, the version and the identifier that it was issued for, and is not taken as a refresh
  -- token. The time is between the issue and thirty seconds after the expiry, which is in whole
  -- seconds.
  pub access_token_round_trip :
      (user_id auth_version : ℤ) (username jti : String) (issue : IssuedToken jwt.Text)
      (at now : Time)
      → leb_ℤ user_id (pos 0) ≡ false
      → is_blank username ≡ false
      → is_blank jti ≡ false
      → at ≤ℤ now
      → now <ℤ add (jwt.whole (add at m.access_ttl)) leeway
      → generate_access_token_issue jwt m user_id username auth_version at jti ≡ ok issue
      → (parse_access_token jwt m issue.token_text now
          ≡ ok (received user_id username auth_version token_type_access m.access_ttl at jti))
        × (parse_refresh_token jwt m issue.token_text now ≡ fails TokenError.refresh_token_invalid)
  unfolding generate_access_token_issue parse_access_token parse_refresh_token
  access_token_round_trip user_id auth_version username jti issue at now user name blank from before
        made =
      let own =
        own_token user_id auth_version username token_type_access jti issue m.access_ttl at now user
          name blank refl from before made in
      (rw own refl, rw own refl)

  -- A refresh token that the manager has issued for a user is taken back as a refresh token, with
  -- the user, the version and the identifier that it was issued for, and is not taken as an access
  -- token. The time is between the issue and thirty seconds after the expiry, which is in whole
  -- seconds.
  pub refresh_token_round_trip :
      (user_id auth_version : ℤ) (username jti : String) (issue : IssuedToken jwt.Text)
      (at now : Time)
      → leb_ℤ user_id (pos 0) ≡ false
      → is_blank username ≡ false
      → is_blank jti ≡ false
      → at ≤ℤ now
      → now <ℤ add (jwt.whole (add at m.refresh_ttl)) leeway
      → generate_refresh_token jwt m user_id username auth_version at jti ≡ ok issue
      → (parse_refresh_token jwt m issue.token_text now
          ≡ ok (received user_id username auth_version token_type_refresh m.refresh_ttl at jti))
        × (parse_access_token jwt m issue.token_text now ≡ fails TokenError.access_token_invalid)
  unfolding generate_refresh_token parse_access_token parse_refresh_token
  refresh_token_round_trip user_id auth_version username jti issue at now user name blank from
        before made =
      let own =
        own_token user_id auth_version username token_type_refresh jti issue m.refresh_ttl at now
          user name blank refl from before made in
      (rw own refl, rw own refl)
