-- ===== src/Errors/Codes.antt =====
-- The numbers that a response carries: internal/response/code.go.
use go_user_system.Common.{ℕ, ◌≡◌, refl, ap, Option, none, some, ◌==◌, if◌then◌else◌, List, [], ◌∷◌}

pub data Code : Type 0 where
  success invalid_params : Code
  username_already_exists register_failed user_not_found user_disabled login_failed : Code
  user_password_no_difference update_user_password_failed login_rate_limited : Code
  token_generate_failed token_user_missing token_user_invalid get_profile_failed : Code
  token_missing token_invalid_format token_expired token_invalid token_malformed : Code
  token_signature_invalid refresh_token_invalid refresh_token_expired : Code
  refresh_token_revoked nickname_invalid update_nickname_failed readiness_failed : Code
  database_not_initialized permission_denied role_not_found rbac_failed : Code
  auth_state_unavailable internal_error request_timeout : Code

-- The value of each variable of code.go.
pub code_number : Code → ℕ
code_number success = 0
code_number invalid_params = 1001
code_number username_already_exists = 2001
code_number register_failed = 2002
code_number user_not_found = 2003
code_number user_disabled = 2004
code_number login_failed = 2005
code_number user_password_no_difference = 2006
code_number update_user_password_failed = 2007
code_number login_rate_limited = 2008
code_number token_generate_failed = 3001
code_number token_user_missing = 3002
code_number token_user_invalid = 3003
code_number get_profile_failed = 3004
code_number token_missing = 3005
code_number token_invalid_format = 3006
code_number token_expired = 3007
code_number token_invalid = 3008
code_number token_malformed = 3009
code_number token_signature_invalid = 3010
code_number refresh_token_invalid = 3011
code_number refresh_token_expired = 3012
code_number refresh_token_revoked = 3013
code_number nickname_invalid = 4001
code_number update_nickname_failed = 4002
code_number readiness_failed = 5001
code_number database_not_initialized = 5002
code_number permission_denied = 5003
code_number role_not_found = 5004
code_number rbac_failed = 5005
code_number auth_state_unavailable = 5006
code_number internal_error = 6001
code_number request_timeout = 6002

codes : List Code
codes =
    success ∷ invalid_params ∷ username_already_exists ∷ register_failed ∷ user_not_found
    ∷ user_disabled ∷ login_failed ∷ user_password_no_difference ∷ update_user_password_failed
    ∷ login_rate_limited ∷ token_generate_failed ∷ token_user_missing ∷ token_user_invalid
    ∷ get_profile_failed ∷ token_missing ∷ token_invalid_format ∷ token_expired ∷ token_invalid
    ∷ token_malformed ∷ token_signature_invalid ∷ refresh_token_invalid ∷ refresh_token_expired
    ∷ refresh_token_revoked ∷ nickname_invalid ∷ update_nickname_failed ∷ readiness_failed
    ∷ database_not_initialized ∷ permission_denied ∷ role_not_found ∷ rbac_failed
    ∷ auth_state_unavailable ∷ internal_error ∷ request_timeout ∷ []

find_code : ℕ → List Code → Option Code
find_code n [] = none
find_code n (c ∷ cs) = if code_number c == n then some c else find_code n cs

find_code-code_number : (c : Code) → find_code (code_number c) codes ≡ some c
unfolding code_number codes find_code
find_code-code_number success = refl
find_code-code_number _ = refl

-- A number in a response body belongs to one code only: two codes of the table that carry the
-- same number are the same code.
pub code_number-injective : (c d : Code) → code_number c ≡ code_number d → c ≡ d
code_number-injective c d h =
    let e : some c ≡ some d =
      cc (find_code-code_number c, find_code-code_number d, ap (λ n. find_code n codes) h) in
    cc e
