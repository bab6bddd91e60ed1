-- ===== src/Token/Tests.antt =====
-- Instances of the theorems on tokens.
use go_user_system.Common.{true, str_eq, ◌≡◌, refl, arith}
use go_user_system.Common.Int.{pos, ◌+ℤ◌}
use go_user_system.Common.Text.{trim_space}
use go_user_system.Errors.{TokenError}
use go_user_system.Result.{ok}
use go_user_system.Token.{
  IssuedToken, TokenManager, fails, token_type_access, token_type_refresh, generate_token,
  generate_access_token_issue, generate_refresh_token, parse_token, parse_access_token,
  parse_refresh_token,
}
use go_user_system.Token.Reference.{Sealed, sealing}
use go_user_system.Token.Parsing.{
  IsSound, received, parse_access_token-IsSound, access_token_round_trip,
}

abbrev manager : TokenManager
manager = record {
  secret = "0123456789abcdef0123456789abcdef";
  issuer = "go-user-system";
  access_ttl = pos 900;
  refresh_ttl = pos 9000;
}

tokens : Unit {0}
unfolding generate_token generate_access_token_issue generate_refresh_token parse_token
    parse_access_token parse_refresh_token trim_space ◌+ℤ◌
tokens = tt

abbrev issue : IssuedToken Sealed
issue = record {
  token_text = (
    record (received sealing manager (pos 7) "ann" (pos 1) "access" (pos 900) (pos 5) "u1") {
      jti = "u1";
    },
    manager.secret,
  );
  jti = "u1";
  token_type = "access";
  expires_at = pos 905;
}

access_token_round_trip_example :
    (parse_access_token sealing manager issue.token_text (pos 6)
      ≡ ok
          (received sealing manager (pos 7) "ann" (pos 1) token_type_access (pos 900) (pos 5) "u1"))
    × (parse_refresh_token sealing manager issue.token_text (pos 6)
        ≡ fails TokenError.refresh_token_invalid)
unfolding tokens
access_token_round_trip_example =
    access_token_round_trip sealing manager (pos 7) (pos 1) "ann" "u1" issue (pos 5) (pos 6) refl
      refl refl (ground arith) (ground arith) refl

parse_access_token-IsSound_example :
    IsSound (received sealing manager (pos 7) "ann" (pos 1) "access" (pos 900) (pos 5) "u1")
    × (str_eq "access" token_type_access ≡ true)
unfolding tokens
parse_access_token-IsSound_example =
    parse_access_token-IsSound sealing manager issue.token_text (pos 6)
      (received sealing manager (pos 7) "ann" (pos 1) "access" (pos 900) (pos 5) "u1") refl

abbrev refresh_issue : IssuedToken Sealed
refresh_issue = record {
  token_text = (
    record (received sealing manager (pos 7) "ann" (pos 1) "refresh" (pos 9000) (pos 5) "u2") {
      jti = "u2";
    },
    manager.secret,
  );
  jti = "u2";
  token_type = "refresh";
  expires_at = pos 9005;
}

refresh_tests :
    parse_refresh_token sealing manager refresh_issue.token_text (pos 6)
    ≡ ok (received sealing manager (pos 7) "ann" (pos 1) token_type_refresh (pos 9000) (pos 5) "u2")
unfolding tokens
refresh_tests = refl
