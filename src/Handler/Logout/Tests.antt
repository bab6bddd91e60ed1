-- ===== src/Handler/Logout/Tests.antt =====
-- Logouts on the reference database, the memory store and the reference package jwt, and instances
-- of the theorems.
use go_user_system.Common.{
  String, true, none, some, ◌≡◌, ◌≢◌, refl, List, [], ◌∷◌, inr, arith, str_eq, if◌then◌else◌,
}
use go_user_system.Common.Int.{pos, ◌-ℤ◌}
use go_user_system.Common.Dict.{lookup, insert, erase}
use go_user_system.Common.Text.{strip_prefix}
use go_user_system.Common.Time.{sub}
use go_user_system.Result.{ok}
use go_user_system.Database.Reference.{reference}
use go_user_system.Dao.{get_user_by_id}
use go_user_system.AuthState.{
  new_memory_store, access_revocation_key, revoke_access_token, is_access_token_revoked,
}
use go_user_system.AuthState.Interface.{memory_store}
use go_user_system.Token.{UserClaims, parse_access_token}
use go_user_system.Token.Reference.{Sealed, sealing}
use go_user_system.Service.Access.{validate_access_token, revoke_access}
use go_user_system.Service.Access.Revoked.{Call, revoke, run}
use go_user_system.Service.Auth.{revoke_body, revoke_refresh_token}
use go_user_system.Service.Auth.Calls
use go_user_system.Handler.{UserHandler, refreshed, refresh_token_handler}
use go_user_system.Handler.Tests.{
  handlers, issuer, claims, signed, hash, session, one_session, moment, access, next,
}
use go_user_system.Database.{Tables}
use go_user_system.Handler.Logout.{LogoutMoment, Ending, logged_out, panicked, logout_handler}
use go_user_system.Handler.Logout.Session.{logout_handler-ends_session, logout_handler-ends_access}
use go_user_system.Handler.Logout.Total.{logout_handler_runs}

logouts : Unit {0}
unfolding handlers get_user_by_id access_revocation_key revoke_access_token is_access_token_revoked
    parse_access_token validate_access_token revoke_access run revoke_body revoke_refresh_token
    logout_handler lookup insert erase strip_prefix sub ◌-ℤ◌ new_memory_store
logouts = tt

abbrev same : String → String
same s = s

abbrev access_claims : UserClaims
access_claims = record claims {
  token_type = "access";
  jti = "a1";
  id = "a1";
  expires_at = some (pos 905);
}

abbrev sealed : String → Sealed
sealed text =
    if str_eq text "acc" then (record access_claims { jti = "" }, issuer.secret) else signed text

abbrev desk : UserHandler
desk = record {
  db = reference;
  store = memory_store same;
  jwt = sealing;
  manager = issuer;
  bcrypt = record { generate = ok; matches = str_eq };
  users = record { initialized = true; has_refresh_repo = true; has_rbac_repo = true };
  text_of = sealed;
  hash_token = hash;
  lower = same;
  limit = record { account_limit = pos 2; ip_limit = pos 9; window = pos 5000000000 };
  initialized = true;
}

abbrev leaving : LogoutMoment
leaving = record {
  parsed_at = pos 10;
  access_parsed_at = pos 10;
  revoking_at = pos 10;
  stored_at = pos 10;
  ended_at = pos 10;
}

abbrev leave : String → Ending desk leaving
leave header =
    logout_handler desk leaving header (some "x") (some "") (one_session, new_memory_store)

logout_tests : ((leave "Bearer acc").0 ≡ logged_out) × ((leave "").0 ≡ logged_out)
unfolding logouts
logout_tests = (refl, refl)

logout_handler_runs_example : (leave "Bearer acc").0 ≢ panicked
logout_handler_runs_example =
    logout_handler_runs desk leaving "Bearer acc" (some "x") (some "")
      (one_session, new_memory_store)

logout_handler-ends_session_example :
    (refresh_token_handler reference sealing issuer sealed hash true moment none
      (some "x")
      (Calls.run reference [] (leave "").1.0)).0
    ≢ refreshed access next
unfolding logouts
logout_handler-ends_session_example =
    logout_handler-ends_session desk leaving moment "" (some "x") none "" "x" claims claims session
      access next [] (one_session, new_memory_store) refl refl refl refl refl refl

abbrev second_logout : List (Call Tables)
second_logout = revoke "a1" (pos 905) (pos 15) (pos 16) ∷ []

logout_handler-ends_access_example :
    (validate_access_token reference
      (memory_store same)
      true
      (some access_claims)
      (pos 20)
      (run reference (memory_store same) same desk.limit second_logout (leave "Bearer acc").1)).0
    ≢ ok tt
unfolding logouts
logout_handler-ends_access_example =
    logout_handler-ends_access desk leaving "Bearer acc" (some "x") "" claims access_claims
      (pos 905) (pos 900) (pos 20) true second_logout (one_session, new_memory_store) refl refl refl
      (ground arith) refl (ground arith) (inr (ground arith), tt) (ground arith)
