-- ===== src/Prelude/Fuel.antt =====
-- How a piece of code ends: with a value, by running out of the loop's fuel, or by a failed
-- `assert` or the use of a null pointer.
use mathlib.Core.Bool.{Bool, true, false}

pub data Run {ℓ} (A : Type ℓ) : Type ℓ where
  done : A → Run A
  spent : Run A
  fault : Run A

infixl 5 ◌>>=◌
abbrev pub ◌>>=◌ {ℓ κ} : {A : Type ℓ} {B : Type κ} → Run A → (A → Run B) → Run B
done a >>= f = f a
spent >>= f = spent
fault >>= f = fault

-- `assert`
abbrev pub check {ℓ} : {A : Type ℓ} → Bool → Run A → Run A
check true r = r
check false r = fault
