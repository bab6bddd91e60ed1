-- ===== src/Token/Reference.antt =====
-- A package jwt whose tokens are the claims with the secret: it meets the laws of the interface.
use go_user_system.Common.{
  String, Bool, true, false, ◌&&◌, Option, some, if◌then◌else◌, str_eq, ◌≡◌, refl, arith,
}
use text.Mathlib.TextPositions.{eq_refl}
use go_user_system.Common.Int.{pos, leb_ℤ, ltb_ℤ, ◌≤ℤ◌, ◌<ℤ◌, lt→ltb_ℤ, +ℤ_parts}
use go_user_system.Common.Time.{Time, Duration, add}
use go_user_system.Errors.{TokenError}
use go_user_system.Result.{Result, ok}
use go_user_system.Token.{UserClaims, Jwt, carried, fails}

abbrev pub Sealed : Type 0
Sealed = UserClaims × String

abbrev pub is_in_time : Option Time → Option Time → Duration → Time → Bool
is_in_time (some issued) (some expires) late now =
    leb_ℤ issued (add now late) && ltb_ℤ now (add expires late)
is_in_time _ _ late now = false

abbrev pub open_seal : Sealed → String → String → Duration → Time → Result (UserClaims × Bool)
open_seal (c, key) secret issuer late now =
    if (str_eq key secret && str_eq c.issuer issuer) && is_in_time c.issued_at c.expires_at late now
    then ok (carried c, true)
    else fails TokenError.rejected

pub open_seal_lem :
    (c : UserClaims) (secret : String) (text : Sealed) (late : Duration) (issued expires now : Time)
    → ◌≡◌ {A = Result Sealed} (ok (c, secret)) (ok text)
    → pos 0 ≤ℤ late
    → c.issued_at ≡ some issued
    → c.expires_at ≡ some expires
    → issued ≤ℤ now
    → now <ℤ add expires late
    → open_seal text secret c.issuer late now
      ≡ ok (record (carried c) { issued_at = some issued; expires_at = some expires }, true)
open_seal_lem c secret text late issued expires now made lasting from to early before =
    let same : text ≡ (c, secret) = cc in
    let early_b : leb_ℤ issued (add now late) ≡ true = ground (arith, +ℤ_parts now late) in
    rw
      (
        same,
        eq_refl secret,
        eq_refl c.issuer,
        from,
        to,
        early_b,
        lt→ltb_ℤ now (add expires late) before,
      )
      refl

pub le_refl : (t : Time) → t ≤ℤ t
le_refl t = ground arith

abbrev pub sealing : Jwt
sealing = record {
  Text = Sealed;
  encode = λ c secret. ok (c, secret);
  decode = open_seal;
  whole = λ t. t;
  whole_le = le_refl;
  decode_lem = open_seal_lem;
}
