-- ===== src/Base/Bits/Digit.antt =====
-- One digit of `bit_and` and `bit_or`: the library's recursion on digits counts down a fuel, which
-- any number from the first argument on may stand for.
use Prim.Native.Nat.{
  ℕ, zero, suc, ◌+◌, ◌*◌, ◌/◌, ◌%◌, ◌≤◌, min, max, digits, bit_and, bit_or, bit_and-bitwise,
  bit_or-bitwise,
}
use mathlib.Core.Path.{◌≡◌, refl}
use native.Mathlib.Omega.{arith}

module _ (rest : ℕ → ℕ) (op : ℕ → ℕ → ℕ) where
  enough_digits :
      (x y fuel : ℕ) (a : ℕ) → a ≤ x → a ≤ fuel → digits rest op x a y ≡ digits rest op fuel a y
  enough_digits zero y zero zero h l = refl
  enough_digits zero y (suc fuel) zero h l = refl
  enough_digits zero y fuel (suc a) h l = elim h [ ]
  enough_digits (suc x) y zero zero h l = refl
  enough_digits (suc x) y zero (suc a) h l = elim l [ ]
  enough_digits (suc x) y (suc fuel) zero h l = refl
  enough_digits (suc x) y (suc fuel) (suc a) h l =
      rw (enough_digits x (y / 2) fuel (suc a / 2) (omega arith) (omega arith))

  first_digit :
      (a y : ℕ)
      → digits rest op (suc a) (suc a) y
        ≡ digits rest op (suc a / 2) (suc a / 2) (y / 2) * 2 + op (suc a % 2) (y % 2)
  first_digit a y = rw (enough_digits a (y / 2) (suc a / 2) (suc a / 2) (omega arith) (omega arith))

pub and_digit : (a b : ℕ) → bit_and a b ≡ bit_and (a / 2) (b / 2) * 2 + min (a % 2) (b % 2)
and_digit zero b = simp bit_and-bitwise (omega arith)
and_digit (suc a) b = simp bit_and-bitwise (first_digit (λ _. 0) min a b)

pub or_digit : (a b : ℕ) → bit_or a b ≡ bit_or (a / 2) (b / 2) * 2 + max (a % 2) (b % 2)
or_digit zero b = simp bit_or-bitwise (omega arith)
or_digit (suc a) b = simp bit_or-bitwise (first_digit (λ c. c) max a b)
