-- ===== src/Database/Reference.antt =====
-- A database whose state is its tables, whose statements never fail, and whose texts are compared
-- exactly: it meets the laws of the interface.
use go_user_system.Common.{String, ◌≡◌, refl, true, arith, str_eq, eq_iff}
use text.Mathlib.TextPositions.{eq_refl}
use go_user_system.Result.{Result, ok, err, Action}
use go_user_system.Database.{
  Tables, Database, Refines, done, Ends, committed, rolled_back, first_user_of, update_users_of,
  create_user_of, first_token_of, update_tokens_of, create_token_of, first_role_of, find_roles_of,
  find_permissions_of, count_user_roles_of, first_or_create_user_role_of, create_user_role_of,
  delete_user_roles_of, join_permissions_of, join_roles_of,
}

abbrev keep : Tables → Tables
keep t = t

abbrev pub settle : {A : Type 0} → Tables → Result A × Tables → Result A × Tables
settle s (ok a, t) = (ok a, t)
settle s (err e, t) = (err e, s)

abbrev pub run_transaction : (A : Type 0) → Action Tables A → Action Tables A
run_transaction A body s = settle s (body s)

pub obeys : {A : Type 0} (meaning : Tables → Result A × Tables) → Refines keep meaning meaning
obeys meaning s = done refl refl

pub settles :
    (A : Type 0) (body : Action Tables A) (s : Tables) (o : Result A × Tables)
    → body s ≡ o
    → Ends keep body s (settle s o)
settles A body s (ok a, t) h = committed s a refl (rw h) refl (rw h)
settles A body s (err e, t) h = rolled_back s e refl (rw h) refl refl

pub str_eq_sym : (s t : String) → str_eq s t ≡ true → str_eq t s ≡ true
str_eq_sym s t h = ground (arith, eq_iff s t, eq_iff t s)

pub str_eq_trans : (s t u : String) → str_eq s t ≡ true → str_eq t u ≡ true → str_eq s u ≡ true
str_eq_trans s t u h k = ground (arith, eq_iff s t, eq_iff t u, eq_iff s u)

abbrev pub reference : Database
reference = record {
  State = Tables;
  view = keep;
  collates = str_eq;
  collates_refl = eq_refl;
  collates_sym = str_eq_sym;
  collates_trans = str_eq_trans;
  first_user = first_user_of;
  update_users = update_users_of;
  create_user = create_user_of str_eq;
  first_token = first_token_of;
  update_tokens = update_tokens_of;
  create_token = create_token_of str_eq;
  first_role = first_role_of;
  find_roles = find_roles_of;
  find_permissions = find_permissions_of;
  count_user_roles = count_user_roles_of;
  first_or_create_user_role = first_or_create_user_role_of;
  create_user_role = create_user_role_of;
  delete_user_roles = delete_user_roles_of;
  join_permissions = join_permissions_of;
  join_roles = join_roles_of;
  transaction = run_transaction;
  first_user_lem = λ p. obeys (first_user_of p);
  update_users_lem = λ p f. obeys (update_users_of p f);
  create_user_lem = λ u. obeys (create_user_of str_eq u);
  first_token_lem = λ p. obeys (first_token_of p);
  update_tokens_lem = λ p f. obeys (update_tokens_of p f);
  create_token_lem = λ r. obeys (create_token_of str_eq r);
  first_role_lem = λ p. obeys (first_role_of p);
  find_roles_lem = obeys find_roles_of;
  find_permissions_lem = obeys find_permissions_of;
  count_user_roles_lem = λ p. obeys (count_user_roles_of p);
  first_or_create_user_role_lem = λ r. obeys (first_or_create_user_role_of r);
  create_user_role_lem = λ r. obeys (create_user_role_of r);
  delete_user_roles_lem = λ p. obeys (delete_user_roles_of p);
  join_permissions_lem = λ p. obeys (join_permissions_of p);
  join_roles_lem = λ p. obeys (join_roles_of p);
  transaction_lem = λ A body s. settles A body s (body s) refl;
}
