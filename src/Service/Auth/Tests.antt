-- ===== src/Service/Auth/Tests.antt =====
-- Runs of the session service on the reference database, and instances of its theorems.
use go_user_system.Common.{String, true, none, some, ◌≡◌, ◌≢◌, refl, List, [], ◌∷◌, count_if, arith}
use go_user_system.Common.Int.{pos, ◌+ℤ◌}
use go_user_system.Errors.{sentinel, error_is, refresh_token_replay, Sentinel}
use go_user_system.Model.{User, RefreshToken}
use go_user_system.Result.{Result, ok, err}
use go_user_system.Database.{Tables}
use go_user_system.Database.Reference.{reference}
use go_user_system.Dao.{get_user_by_id_for_update}
use go_user_system.Repository.{
  create, find_by_jti_for_update, revoke_by_jti, revoke_family, revoke_all_by_user_id,
}
use go_user_system.Service.Auth.{
  store_refresh_token, reuse, exchange, present, present_token, rotate_body, rotate_refresh_token,
  revoke_body, revoke_refresh_token, revoke_all_refresh_tokens,
}
use go_user_system.Service.Auth.Rotation.{replayed, verdict, exchanged}
use go_user_system.Service.Auth.Sessions.{RotationEnds, rotate_refresh_token_ends, request_verdict}
use go_user_system.Service.Auth.Logout
use go_user_system.Service.Auth.Logout.{LogoutEnds, revoke_refresh_token_ends}
use go_user_system.Service.Auth.Calls.{Call, rotate, revoke, store, perform, run}
use go_user_system.Service.Auth.Single.{IsSingle, is_live, run-IsSingle}
use go_user_system.Service.Auth.Reuse.{rotates_once}
use go_user_system.Service.Auth.Closed.{IsClosed}
use go_user_system.Service.Auth.Theft.{replay_closes_family, SecondUse, SecondUse-detected}

auth : Unit {0}
unfolding store_refresh_token reuse exchange present present_token rotate_body rotate_refresh_token
    revoke_body revoke_refresh_token revoke_all_refresh_tokens get_user_by_id_for_update create
    find_by_jti_for_update revoke_by_jti revoke_family revoke_all_by_user_id error_is perform run
    ◌+ℤ◌ verdict exchanged
auth = tt

abbrev ann : User
ann = record {
  id = pos 7;
  username = "ann";
  password_hash = "h";
  nickname = "ann";
  status = pos 1;
  auth_version = pos 1;
  last_login_at = none;
  deleted_at = none;
}

abbrev token : String → RefreshToken
token jti = record {
  id = pos 0;
  user_id = pos 7;
  jti = jti;
  family_id = "j1";
  token_hash = jti;
  expires_at = pos 500;
  revoked_at = none;
  revoked_reason = none;
  replaced_by_jti = none;
}

abbrev tables : Tables
tables = record {
  users = ann ∷ [];
  tokens = token "j1" ∷ [];
  roles = [];
  permissions = [];
  user_roles = [];
  role_permissions = [];
  next_user_id = pos 8;
  next_token_id = pos 1;
}

abbrev swap : String → String → Tables → Result (Unit {0}) × Tables
swap old new =
    rotate_refresh_token reference true (pos 7) (pos 1) old old (some (token new)) (pos 100)
      (pos 101) (pos 102)

abbrev after_swap : Tables
after_swap = (swap "j1" "j2" tables).1

rotation_tests :
    ((swap "j1" "j2" tables).0 ≡ ok tt)
    × ((swap "j2" "j3" after_swap).0 ≡ ok tt)
    × ((swap "j1" "j3" after_swap).0 ≡ err (sentinel refresh_token_replay))
    × ((swap "j2" "j3" (swap "j1" "j3" after_swap).1).0
        ≡ err (sentinel Sentinel.refresh_token_revoked))
unfolding auth
rotation_tests = (refl, refl, refl, refl)

rotate_refresh_token_ends_example :
    RotationEnds reference
      (pos 7)
      (pos 1)
      "j1"
      "j1"
      (token "j2")
      (pos 101)
      (pos 102)
      tables
      (request_verdict reference
        (pos 7)
        (pos 1)
        "j1"
        "j1"
        (token "j2")
        (pos 101)
        (pos 102)
        true
        (pos 100)
        tables)
      (swap "j1" "j2" tables)
rotate_refresh_token_ends_example =
    rotate_refresh_token_ends reference (pos 7) (pos 1) "j1" "j1" (token "j2") (pos 101) (pos 102)
      true (pos 100) tables

revoke_refresh_token_ends_example :
    LogoutEnds reference
      (pos 7)
      "j1"
      "j1"
      (pos 100)
      tables
      Logout.Verdict.revokes
      (revoke_refresh_token reference true (pos 7) "j1" "j1" (pos 100) tables)
unfolding auth
revoke_refresh_token_ends_example =
    revoke_refresh_token_ends reference (pos 7) "j1" "j1" (pos 100) true tables

rotates_once_example :
    (swap "j1" "j9" (
      run reference
        (revoke true (pos 7) "j2" "j2" (pos 110) ∷ store true (some (token "j4")) ∷ [])
        (swap "j1" "j2" tables).1)).0
    ≢ ok tt
unfolding auth
rotates_once_example =
    rotates_once reference "j1" true true (pos 7) (pos 7) (pos 1) (pos 1) "j1" "j1" (token "j2")
      (token "j9") (pos 100) (pos 101) (pos 102) (pos 100) (pos 101) (pos 102)
      (revoke true (pos 7) "j2" "j2" (pos 110) ∷ store true (some (token "j4")) ∷ []) tables refl

replay_closes_family_example :
    (c : RefreshToken) × (request_verdict reference
        (pos 7)
        (pos 1)
        "j1"
        "j1"
        (token "j3")
        (pos 101)
        (pos 102)
        true
        (pos 100)
        after_swap
      ≡ replayed c)
    × IsClosed reference (pos 7) c.family_id (swap "j1" "j3" after_swap).1
unfolding auth
replay_closes_family_example =
    replay_closes_family reference "j1" true (pos 7) (pos 1) "j1" (token "j3") (pos 100) (pos 101)
      (pos 102) after_swap refl

SecondUse-detected_example :
    SecondUse reference "j1" (pos 7) "j1" after_swap (swap "j1" "j3" after_swap)
unfolding auth
SecondUse-detected_example =
    SecondUse-detected reference "j1" true (pos 7) (pos 1) "j1" (token "j2") (token "j3") (pos 100)
      (pos 101) (pos 102) (pos 100) (pos 101) (pos 102) (token "j1") tables refl refl refl refl

abbrev renewals : List Call
renewals =
    rotate true (pos 7) (pos 1) "j1" "j1" (some (token "j2")) (pos 100) (pos 101) (pos 102)
    ∷ store true (some (record (token "j4") { family_id = "j4" }))
    ∷ rotate true (pos 7) (pos 1) "j2" "j2" (some (token "j3")) (pos 110) (pos 111) (pos 112)
    ∷ []

run-IsSingle_example : IsSingle reference "j1" (run reference renewals tables)
unfolding auth
run-IsSingle_example =
    run-IsSingle reference "j1" renewals tables refl (record { filled = refl; few = omega arith })

live_tests : count_if (is_live reference "j1") (run reference renewals tables).tokens ≡ 1
unfolding auth
live_tests = refl
