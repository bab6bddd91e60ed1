-- ===== src/Common/Counts.antt =====
-- How many items of a list pass a test, and what a change of the list does to that.
use Prim.Native.Nat.{◌+◌, ◌≤◌}
use mathlib.Core.Path.{◌≡◌, refl, ap}
use mathlib.Core.Logic.{inl, inr}
use mathlib.Core.Bool.{Bool, true, false}
use mathlib.Core.Option.{some}
use mathlib.Core.List.{List, [], ◌∷◌, ◌++◌}
use native.Mathlib.Omega.{arith}
use go_user_system.Common.Tests.{Bool-cases}
use go_user_system.Common.Lists.{first, all, count_if, update_if}

pub count_if-append :
    {A : Type 0} (p : A → Bool) (xs ys : List A)
    → count_if p (xs ++ ys) ≡ count_if p xs + count_if p ys
count_if-append p [] ys = omega arith
count_if-append p (x ∷ xs) ys = ground (arith, count_if-append p xs ys)

module _ {A : Type 0} (p q : A → Bool) (f : A → A) where
  -- A change after which no changed item passes makes the count no larger.
  pub count_if-update_if :
      (xs : List A) → ((x : A) → p (f x) ≡ false) → count_if p (update_if q f xs) ≤ count_if p xs
  count_if-update_if [] h = ground arith
  count_if-update_if (x ∷ xs) h = ground (arith, h x, count_if-update_if xs h)

  -- It makes the count smaller where an item that passed is changed.
  pub count_if-update_if_less :
      (g : A → Bool) (xs : List A) (c : A)
      → ((x : A) → p (f x) ≡ false)
      → first g xs ≡ some c
      → q c ≡ true
      → p c ≡ true
      → count_if p (update_if q f xs) + 1 ≤ count_if p xs
  count_if-update_if_less g [] c h found hit passed = absurd (cc)
  count_if-update_if_less g (x ∷ xs) c h found hit passed = elim (Bool-cases (g x)) [
    | inl here ↦
        let same : x ≡ c = ground arith in
        ground (arith, h x, count_if-update_if xs h, ap q same, ap p same)
    | inr there ↦
        let later : first g xs ≡ some c = ground arith in
        ground (arith, h x, count_if-update_if_less g xs c h later hit passed)
  ]

  pub all-update_if_kept :
      (xs : List A) → ((x : A) → p (f x) ≡ p x) → all p xs ≡ true → all p (update_if q f xs) ≡ true
  all-update_if_kept [] h e = refl
  all-update_if_kept (x ∷ xs) h e = ground (arith, h x, all-update_if_kept xs h)

pub all-first :
    {A : Type 0} (p g : A → Bool) (xs : List A) (c : A)
    → all p xs ≡ true
    → first g xs ≡ some c
    → p c ≡ true
all-first p g [] c h found = absurd (cc)
all-first p g (x ∷ xs) c h found = ground (arith, all-first p g xs c)
