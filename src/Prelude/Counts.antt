-- ===== src/Prelude/Counts.antt =====
-- Sums over the members of a list.
use Prim.Native.Nat.{ℕ, ◌+◌}
use mathlib.Core.Path.{◌≡◌}
use mathlib.Core.List.{List, [], ◌∷◌, ◌++◌}
use native.Mathlib.Omega.{arith}

module _ {ℓ} {A : Type ℓ} where
  abbrev pub count : (A → ℕ) → List A → ℕ
  count f [] = 0
  count f (x ∷ xs) = f x + count f xs

  pub count-append : (f : A → ℕ) (xs ys : List A) → count f (xs ++ ys) ≡ count f xs + count f ys
  count-append f [] ys = omega arith
  count-append f (x ∷ xs) ys = omega (arith, count-append f xs ys)

  pub count_middle :
      (f : A → ℕ) (before after : List A) (x : A)
      → count f (before ++ x ∷ after) ≡ count f before + count f after + f x
  count_middle f before after x = omega (arith, count-append f before (x ∷ after))
