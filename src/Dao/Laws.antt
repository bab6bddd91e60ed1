-- ===== src/Dao/Laws.antt =====
-- What each statement on the users does to the tables.
use go_user_system.Common.{String, Bool, some, update_if}
use go_user_system.Common.Int.{ℤ}
use go_user_system.Common.Time.{Time}
use go_user_system.Model.{User}
use go_user_system.Result.{ok}
use go_user_system.Database.{Database, Tables, Refines, visible, first_user_of, create_user_of}
use go_user_system.Database.Rules.{write-Acts}
use go_user_system.Dao.{
  has_id, create_user, get_user_by_username, get_user_by_id, get_user_by_id_for_update,
  update_nickname_by_id, update_last_login_at_by_id,
}

abbrev pub with_users : (User → Bool) → (User → User) → Tables → Tables
with_users p f t = record t { users = update_if (visible p) f t.users }

module _ (db : Database) where
  open db use {State, view, collates}

  pub create_user_lem : (u : User) → Refines view (create_user_of collates u) (create_user db u)
  unfolding create_user
  create_user_lem u = db.create_user_lem u

  pub get_user_by_username_lem :
      (username : String)
      → Refines view
          (first_user_of (λ u. collates u.username username))
          (get_user_by_username db username)
  unfolding get_user_by_username
  get_user_by_username_lem username = db.first_user_lem (λ u. collates u.username username)

  pub get_user_by_id_lem :
      (id : ℤ) → Refines view (first_user_of (has_id id)) (get_user_by_id db id)
  unfolding get_user_by_id
  get_user_by_id_lem id = db.first_user_lem (has_id id)

  pub get_user_by_id_for_update_lem :
      (id : ℤ) → Refines view (first_user_of (has_id id)) (get_user_by_id_for_update db id)
  unfolding get_user_by_id_for_update
  get_user_by_id_for_update_lem id = db.first_user_lem (has_id id)

  pub update_nickname_by_id_lem :
      (id : ℤ) (nickname : String)
      → Refines view
          (λ t. (ok tt, with_users (has_id id) (λ u. record u { nickname = nickname }) t))
          (update_nickname_by_id db id nickname)
  unfolding update_nickname_by_id
  update_nickname_by_id_lem id nickname s =
      let f : User → User = λ u. record u { nickname = nickname } in
      write-Acts view s (db.update_users (has_id id) f) (db.update_users_lem (has_id id) f s)

  pub update_last_login_at_by_id_lem :
      (id : ℤ) (at : Time)
      → Refines view
          (λ t. (ok tt, with_users (has_id id) (λ u. record u { last_login_at = some at }) t))
          (update_last_login_at_by_id db id at)
  unfolding update_last_login_at_by_id
  update_last_login_at_by_id_lem id at s =
      let f : User → User = λ u. record u { last_login_at = some at } in
      write-Acts view s (db.update_users (has_id id) f) (db.update_users_lem (has_id id) f s)
