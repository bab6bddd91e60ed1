-- ===== src/Handler/Refresh.antt =====
-- `RefreshTokenHandler`: the rotation behind a renewal.
use go_user_system.Common.{String, Bool, Option, some, List, ◌≡◌, ◌≢◌, refl, Bool-cases, inl, inr}
use go_user_system.Common.Text.{is_empty}
use go_user_system.Model.{RefreshToken}
use go_user_system.Result.{Result, ok, err}
use go_user_system.Database.{Database}
use go_user_system.Token.{Jwt, TokenManager, UserClaims, IssuedToken, parse_refresh_token}
use go_user_system.Service.Auth.{rotate_refresh_token}
use go_user_system.Service.Auth.Calls.{Call, run}
use go_user_system.Service.Auth.Reuse.{rotates_once}
use go_user_system.Handler.{
  Answer, refreshed, Moment, refresh_token_model, request_refresh_token, answer_rotation, rotate_to,
  renew, refresh_token_handler,
}

module _ (db : Database) (jwt : Jwt) (m : TokenManager) (text_of : String → jwt.Text)
    (hash_token : jwt.Text → String) (initialized : Bool) where
  open db use {State}
  open jwt use {Text}

  -- The rotation that a request for claims calls.
  abbrev rotation : Moment → String → UserClaims → RefreshToken → State → Result (Unit {0}) × State
  rotation at value claims next s =
      rotate_refresh_token db initialized claims.user_id claims.auth_version claims.jti
        (hash_token (text_of value)) (some next) at.requested at.checked at.written s

  -- A renewal rests on a rotation that succeeded, and leaves the state of the rotation.
  pub record IsRotation (at : Moment) (value : String) (claims : UserClaims) (s : State)
      (o : Answer Text × State) : Type 0 where
    pub next : RefreshToken
    pub has_rotated : (rotation at value claims next s).0 ≡ ok tt
    pub is_state : o.1 ≡ (rotation at value claims next s).1

  answer_rotation-ok :
      (access next : IssuedToken Text) (r : Result (Unit {0})) (s : State) (a n : IssuedToken Text)
      → (answer_rotation db jwt m text_of hash_token initialized access next (r, s)).0
        ≡ refreshed a n
      → (r ≡ ok tt)
        × ((answer_rotation db jwt m text_of hash_token initialized access next (r, s)).1 ≡ s)
  answer_rotation-ok access next (ok tt) s a n h = (refl, refl)
  answer_rotation-ok access next (err e) s a n h = absurd (cc)

  rotate_to-IsRotation :
      (at : Moment) (value : String) (claims : UserClaims) (access : IssuedToken Text)
      (r : Result (IssuedToken Text)) (s : State) (a n : IssuedToken Text)
      → (rotate_to db jwt m text_of hash_token initialized at value claims access r s).0
        ≡ refreshed a n
      → IsRotation at value claims s
          (rotate_to db jwt m text_of hash_token initialized at value claims access r s)
  rotate_to-IsRotation at value claims access (err e) s a n h = absurd (cc)
  rotate_to-IsRotation at value claims access (ok next) s a n h =
      let row = refresh_token_model claims.user_id next (hash_token next.token_text) in
      let o = rotation at value claims row s in
      let (done, same) = answer_rotation-ok access next o.0 o.1 a n h in
      record { next = row; has_rotated = done; is_state = same }

  renew-IsRotation :
      (at : Moment) (value : String) (claims : UserClaims) (r : Result (IssuedToken Text))
      (s : State) (a n : IssuedToken Text)
      → (renew db jwt m text_of hash_token initialized at value claims r s).0 ≡ refreshed a n
      → IsRotation at value claims s
          (renew db jwt m text_of hash_token initialized at value claims r s)
  renew-IsRotation at value claims (err e) s a n h = absurd (cc)
  renew-IsRotation at value claims (ok access) s a n h =
      rotate_to-IsRotation at value claims access _ s a n h

  pub handler-IsRotation :
      (at : Moment) (cookie : Option String) (body : String) (claims : UserClaims) (s : State)
      (a n : IssuedToken Text)
      → parse_refresh_token jwt m (text_of (request_refresh_token cookie body)) at.parsed_at
        ≡ ok claims
      → (refresh_token_handler db jwt m text_of hash_token initialized at cookie (some body) s).0
        ≡ refreshed a n
      → IsRotation at
          (request_refresh_token cookie body)
          claims
          s
          (refresh_token_handler db jwt m text_of hash_token initialized at cookie (some body) s)
  unfolding refresh_token_handler
  handler-IsRotation at cookie body claims s a n parsed h =
      elim (Bool-cases (is_empty (request_refresh_token cookie body))) [
        | inl empty ↦ absurd (let k = rw empty at h in cc)
        | inr full ↦
            rw (full, parsed)
              (renew-IsRotation at (request_refresh_token cookie body) claims _ s a n
                (rw (full, parsed) at h))
      ]

  -- Of two requests whose refresh tokens have one identifier, the second does not renew the
  -- session once the first has, whatever calls on the session service come between: neither for
  -- its owner nor for a thief.
  pub refresh_token_handler-once :
      (at at' : Moment) (cookie cookie' : Option String) (body body' : String)
      (claims claims' : UserClaims) (a n a' n' : IssuedToken Text) (calls : List Call) (s : State)
      → parse_refresh_token jwt m (text_of (request_refresh_token cookie body)) at.parsed_at
        ≡ ok claims
      → parse_refresh_token jwt m (text_of (request_refresh_token cookie' body')) at'.parsed_at
        ≡ ok claims'
      → claims'.jti ≡ claims.jti
      → (refresh_token_handler db jwt m text_of hash_token initialized at cookie (some body) s).0
        ≡ refreshed a n
      → (refresh_token_handler db jwt m text_of hash_token initialized at' cookie' (some body') (
          run db calls
            (refresh_token_handler db jwt m text_of hash_token initialized at cookie
              (some body)
              s).1)).0
        ≢ refreshed a' n'
  refresh_token_handler-once at at' cookie cookie' body body' claims claims' a n a' n' calls s
        parsed parsed' same h h' =
      let one = handler-IsRotation at cookie body claims s a n parsed h in
      let two = handler-IsRotation at' cookie' body' claims' _ a' n' parsed' h' in
      let again = rw (same, one.is_state) at two.has_rotated in
      rotates_once db claims.jti initialized initialized claims.user_id claims'.user_id
        claims.auth_version claims'.auth_version
        (hash_token (text_of (request_refresh_token cookie body)))
        (hash_token (text_of (request_refresh_token cookie' body'))) one.next two.next at.requested
        at.checked at.written at'.requested at'.checked at'.written calls s one.has_rotated again
