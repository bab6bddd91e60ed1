-- ===== src/Router/Admitted.antt =====
-- Which requests reach their handler.
use go_user_system.Common.{String, some, ◌≡◌}
use go_user_system.Common.Time.{Time}
use go_user_system.Middleware.{Reply, Identity}
use go_user_system.Middleware.Admission.{IsKnown, Holds}
use go_user_system.Handler.{UserHandler}
use go_user_system.Handler.Account.{Answer, int64, failed}
use go_user_system.Router.{Both, Handling}

module _ (h : UserHandler) (now at : Time) (header : String) where
  open h use {db, store}

  abbrev pub KnownWith : String → Both h now at header → Identity → Type 0
  KnownWith permission_code s id =
      IsKnown db store h.jwt h.manager h.text_of h.initialized now at header s.0 s.1 id
      × Holds db store h.jwt h.manager h.text_of h.initialized now at header permission_code
          id.user_id (db.view s.0)

  -- A request is turned away with the reply of a middleware, and the tables stay; or the handler
  -- runs for the user, on the tables of before, and what it answers and leaves is the outcome.
  pub data RouteEnds {A : Type 0} (permission_code : String) (handler : Handling h now at header A)
      (s : Both h now at header) (o : Answer A × Both h now at header) : Type 0 where
    turned_away :
        (r : Reply)
        → o.0 ≡ failed r
        → db.view o.1.0 ≡ db.view s.0
        → RouteEnds permission_code handler s o
    served :
        (id : Identity) (state : db.State)
        → KnownWith permission_code s id
        → db.view state ≡ db.view s.0
        → o.0 ≡ (handler (some (int64 id.user_id)) state).0
        → o.1.0 ≡ (handler (some (int64 id.user_id)) state).1
        → RouteEnds permission_code handler s o
