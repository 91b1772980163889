-- ===== src/Base/Counting.antt =====
-- Quantities summed over a list, and members taken out of it.
use Prim.Native.Nat.{ℕ, zero, suc, ◌+◌}
use mathlib.Core.Path.{◌≡◌}
use mathlib.Core.Logic.{inl, inr}
use mathlib.Core.List.{List, [], ◌∷◌, ◌++◌}
use mathlib.Core.Option.{Option, none, some}
use native.Mathlib.Omega.{arith}
use webtransport_rs.Base.Tests.{Option-cases}

-- The sum of a quantity over the members of a list.
abbrev pub sum {ℓ} : {A : Type ℓ} → (A → ℕ) → List A → ℕ
sum f [] = 0
sum f (x ∷ xs) = f x + sum f xs

pub sum_append {ℓ} :
    {A : Type ℓ} (f : A → ℕ) (xs ys : List A) → sum f (xs ++ ys) ≡ sum f xs + sum f ys
sum_append f [] ys = omega arith
sum_append f (x ∷ xs) ys = rw (sum_append f xs ys) (omega arith)

-- A member at an index, and the others. The order among the others stays.
unfoldable pub remove_at {ℓ} : {A : Type ℓ} → ℕ → List A → Option (A × List A)
remove_at i [] = none
remove_at zero (x ∷ xs) = some (x, xs)
remove_at (suc i) (x ∷ xs) = elim (remove_at i xs) [ none ↦ none | some (y, ys) ↦ some (y, x ∷ ys) ]

pub sum-remove_at {ℓ} :
    {A : Type ℓ} (f : A → ℕ) (i : ℕ) (xs : List A) (x : A) (left : List A)
    → remove_at i xs ≡ some (x, left)
    → f x + sum f left ≡ sum f xs
unfolding remove_at
sum-remove_at f i [] x left e = ground (arith, e)
sum-remove_at f zero (y ∷ ys) x left e = ground (arith, e)
sum-remove_at f (suc i) (y ∷ ys) x left e = elim (Option-cases (remove_at i ys)) [
  | inl e' ↦ ground (arith, e, e')
  | inr ((z, rest), e') ↦ ground (arith, e, e', sum-remove_at f i ys z rest e')
]
