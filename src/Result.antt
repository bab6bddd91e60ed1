-- ===== src/Result.antt =====
-- Go's pairs of a value and an error, and calls that read and change a state.
use go_user_system.Common.{Bool, true, false, ◌≡◌, refl, ◌⊎◌, inl, inr}
use go_user_system.Errors.{Error}

pub data Result {ℓ} (A : Type ℓ) : Type ℓ where
  ok : A → Result A
  err : Error → Result A

pub Result-cases :
    {A : Type 0} (r : Result A) → ((a : A) × (r ≡ ok a)) ⊎ ((e : Error) × (r ≡ err e))
Result-cases (ok a) = inl (a, refl)
Result-cases (err e) = inr (e, refl)

-- `return nil, f(err)` where `err != nil`.
abbrev pub map_error : {A : Type 0} → (Error → Error) → Result A → Result A
map_error f (ok a) = ok a
map_error f (err e) = err (f e)

abbrev pub Action : Type 0 → Type 0 → Type 0
Action S A = S → Result A × S

-- How a call goes on after its first part.
abbrev pub resume : {S A B : Type 0} → (A → Action S B) → Result A → S → Result B × S
resume k (ok a) t = k a t
resume k (err e) t = (err e, t)

module _ {S : Type 0} where
  abbrev pub pure : {A : Type 0} → A → Action S A
  pure a s = (ok a, s)

  -- `return err`
  abbrev pub raise : {A : Type 0} → Error → Action S A
  raise e s = (err e, s)

  infixl 5 ◌>>=◌ ◌>>◌
  abbrev pub ◌>>=◌ : {A B : Type 0} → Action S A → (A → Action S B) → Action S B
  ◌>>=◌ m k s = resume k (m s).0 (m s).1

  abbrev pub ◌>>◌ : {A B : Type 0} → Action S A → Action S B → Action S B
  m >> k = m >>= λ _. k

  -- `if refused { return err }`
  abbrev pub raise_if : Bool → Error → Action S (Unit {0})
  raise_if true e = raise e
  raise_if false e = pure tt

  abbrev pub on_error : {A : Type 0} → (Error → Error) → Action S A → Action S A
  on_error f m s = (map_error f (m s).0, (m s).1)

  -- `v, err := call()`, where the caller goes on in both cases.
  abbrev pub attempt : {A : Type 0} → Action S A → Action S (Result A)
  attempt m s = (ok (m s).0, (m s).1)

  -- A value and an error that were computed with no call.
  abbrev pub lift : {A : Type 0} → Result A → Action S A
  lift r s = (r, s)
