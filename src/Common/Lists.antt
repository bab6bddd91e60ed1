-- ===== src/Common/Lists.antt =====
-- Lists measured by native numbers, and the predicates and searches that the tables use.
use Prim.Native.Nat.{ℕ, suc}
use mathlib.Core.Path.{◌≡◌, refl, subst}
use mathlib.Core.Logic.{◌≢◌, inl, inr}
use mathlib.Core.Bool.{Bool, true, false, ◌||◌, ◌&&◌, not}
use mathlib.Core.Option.{Option, none, some}
use mathlib.Core.List.{List, [], ◌∷◌, ◌++◌}
use native.Mathlib.Omega.{arith}
use go_user_system.Common.Tests.{if◌then◌else◌, Bool-cases}

module _ {ℓ} {A : Type ℓ} where
  abbrev pub length : List A → ℕ
  length [] = 0
  length (x ∷ xs) = suc (length xs)

  -- The first item that passes the test.
  abbrev pub first : (A → Bool) → List A → Option A
  first p [] = none
  first p (x ∷ xs) = if p x then some x else first p xs

  -- How many items pass the test.
  abbrev pub count_if : (A → Bool) → List A → ℕ
  count_if p [] = 0
  count_if p (x ∷ xs) = if p x then suc (count_if p xs) else count_if p xs

  -- Every item that passes the test is changed.
  abbrev pub update_if : (A → Bool) → (A → A) → List A → List A
  update_if p f [] = []
  update_if p f (x ∷ xs) = (if p x then f x else x) ∷ update_if p f xs

  -- Every item that passes the test is dropped.
  abbrev pub drop_if : (A → Bool) → List A → List A
  drop_if p [] = []
  drop_if p (x ∷ xs) = if p x then drop_if p xs else x ∷ drop_if p xs

  abbrev pub any : (A → Bool) → List A → Bool
  any p [] = false
  any p (x ∷ xs) = p x || any p xs

  abbrev pub all : (A → Bool) → List A → Bool
  all p [] = true
  all p (x ∷ xs) = p x && all p xs

  abbrev pub All {κ} : (A → Type κ) → List A → Type κ
  All P [] = Unit
  All P (x ∷ xs) = P x × All P xs

  pub first-sat : (p : A → Bool) (xs : List A) (a : A) → first p xs ≡ some a → p a ≡ true
  first-sat p [] a e = cc
  first-sat p (x ∷ xs) a e = ground (arith, first-sat p xs a)

  pub first-All {κ} :
      (P : A → Type κ) (p : A → Bool) (xs : List A) (a : A) → All P xs → first p xs ≡ some a → P a
  first-All P p [] a h e = cc
  first-All P p (x ∷ xs) a (hx, hs) e = elim (Bool-cases (p x)) [
    | inl hit ↦ let same : x ≡ a = ground arith in subst P same hx
    | inr miss ↦ first-All P p xs a hs (ground arith)
  ]

module _ {ℓ} {A : Type ℓ} where
  pub first-all :
      (p b : A → Bool) (xs : List A) (a : A)
      → all (λ x. not (p x) || b x) xs ≡ true
      → first p xs ≡ some a
      → b a ≡ true
  first-all p b [] a h e = cc
  first-all p b (x ∷ xs) a h e = ground (arith, first-all p b xs a)

  pub any-first : (p : A → Bool) (xs : List A) (a : A) → first p xs ≡ some a → any p xs ≡ true
  any-first p [] a e = cc
  any-first p (x ∷ xs) a e = ground (arith, any-first p xs a)

  pub first-any : (p : A → Bool) (xs : List A) → any p xs ≡ true → first p xs ≢ none
  first-any p [] h = cc
  first-any p (x ∷ xs) h = ground (arith, first-any p xs)

  pub any-append : (p : A → Bool) (xs ys : List A) → any p (xs ++ ys) ≡ (any p xs || any p ys)
  any-append p [] ys = refl
  any-append p (x ∷ xs) ys = ground (arith, any-append p xs ys)

  pub all-append : (p : A → Bool) (xs ys : List A) → all p (xs ++ ys) ≡ (all p xs && all p ys)
  all-append p [] ys = refl
  all-append p (x ∷ xs) ys = ground (arith, all-append p xs ys)

  pub any-update_if :
      (p q : A → Bool) (f : A → A) (xs : List A)
      → ((x : A) → p (f x) ≡ p x)
      → any p (update_if q f xs) ≡ any p xs
  any-update_if p q f [] h = refl
  any-update_if p q f (x ∷ xs) h = ground (arith, h x, any-update_if p q f xs h)

  pub all-update_if :
      (p q : A → Bool) (f : A → A) (xs : List A)
      → ((x : A) → p (f x) ≡ true)
      → all p xs ≡ true
      → all p (update_if q f xs) ≡ true
  all-update_if p q f [] h e = refl
  all-update_if p q f (x ∷ xs) h e = ground (arith, h x, all-update_if p q f xs h)

  -- Where the change makes the test true, every item that is selected passes it.
  pub all-update_if_selected :
      (p q : A → Bool) (f : A → A) (xs : List A)
      → ((x : A) → p (f x) ≡ true)
      → ((x : A) → q x ≡ false → p x ≡ true)
      → all p (update_if q f xs) ≡ true
  all-update_if_selected p q f [] h k = refl
  all-update_if_selected p q f (x ∷ xs) h k =
      ground (arith, h x, k x, all-update_if_selected p q f xs h k)

  pub first-update_if :
      (p q : A → Bool) (f : A → A) (xs : List A)
      → ((x : A) → p (f x) ≡ p x)
      → first p (update_if q f xs)
        ≡ elim (first p xs) [ none ↦ none | some a ↦ some (if q a then f a else a) ]
  first-update_if p q f [] h = refl
  first-update_if p q f (x ∷ xs) h = ground (arith, h x, first-update_if p q f xs h)

  pub first-append :
      (p : A → Bool) (xs ys : List A)
      → first p (xs ++ ys) ≡ elim (first p xs) [ none ↦ first p ys | some a ↦ some a ]
  first-append p [] ys = refl
  first-append p (x ∷ xs) ys = ground (arith, first-append p xs ys)

  pub first-none : (p : A → Bool) (xs : List A) → any p xs ≡ false → first p xs ≡ none
  first-none p [] h = refl
  first-none p (x ∷ xs) h = ground (arith, first-none p xs)
