-- ===== src/Base/Bits.antt =====
-- Laws of `bit_and` and `bit_or` at variables, from the digit recursion that both stand for.
mod Digit
use Prim.Native.Nat.{
  ℕ, zero, suc, ◌+◌, ◌-◌, ◌*◌, ◌/◌, ◌%◌, ◌^◌, ◌≤◌, ◌<◌, bit_and, bit_or, bit_and-bitwise,
  bit_or-bitwise,
}
use mathlib.Core.Path.{◌≡◌, refl}
use native.Mathlib.Nat.{pow-suc}
use native.Mathlib.Omega.{arith}
use Digit.{and_digit, or_digit}

pub zero_and : (b : ℕ) → bit_and 0 b ≡ 0
zero_and b = bit_and-bitwise 0 b

pub zero_or : (b : ℕ) → bit_or 0 b ≡ b
zero_or b = bit_or-bitwise 0 b

half : (p q r : ℕ) → (q * (p * 2) + r) / 2 ≡ q * p + r / 2
half p q r = omega arith

parity : (p q r : ℕ) → (q * (p * 2) + r) % 2 ≡ r % 2
parity p q r = omega arith

module _ (p q r m s : ℕ) where
  and_split_digit :
      bit_and (q * p + r / 2) (m * p + s / 2) ≡ bit_and q m * p + bit_and (r / 2) (s / 2)
      → bit_and (q * (p * 2) + r) (m * (p * 2) + s) ≡ bit_and q m * (p * 2) + bit_and r s
  and_split_digit ih =
      rw (and_digit (q * (p * 2) + r) (m * (p * 2) + s), half, half, parity, parity, ih)
        (omega (arith, and_digit r s))

  or_split_digit :
      bit_or (q * p + r / 2) (m * p + s / 2) ≡ bit_or q m * p + bit_or (r / 2) (s / 2)
      → bit_or (q * (p * 2) + r) (m * (p * 2) + s) ≡ bit_or q m * (p * 2) + bit_or r s
  or_split_digit ih =
      rw (or_digit (q * (p * 2) + r) (m * (p * 2) + s), half, half, parity, parity, ih)
        (omega (arith, or_digit r s))

-- The high parts and the low parts of two numbers, split at the same digit, are combined apart.
pub and_split :
    (k q r m s : ℕ)
    → r < 2 ^ k
    → s < 2 ^ k
    → bit_and (q * 2 ^ k + r) (m * 2 ^ k + s) ≡ bit_and q m * 2 ^ k + bit_and r s
and_split zero q r m s hr hs = ground (arith, zero_and 0)
and_split (suc k) q r m s hr hs = rw pow-suc (
    and_split_digit (2 ^ k) q r m s
      (and_split k q (r / 2) m (s / 2) (omega (arith, pow-suc 2 k)) (omega (arith, pow-suc 2 k))))

pub or_split :
    (k q r m s : ℕ)
    → r < 2 ^ k
    → s < 2 ^ k
    → bit_or (q * 2 ^ k + r) (m * 2 ^ k + s) ≡ bit_or q m * 2 ^ k + bit_or r s
or_split zero q r m s hr hs = ground (arith, zero_or 0)
or_split (suc k) q r m s hr hs = rw pow-suc (
    or_split_digit (2 ^ k) q r m s
      (or_split k q (r / 2) m (s / 2) (omega (arith, pow-suc 2 k)) (omega (arith, pow-suc 2 k))))

-- A mask of ones over all the digits of a number.
pub and_ones : (k a b : ℕ) → a < 2 ^ k → b + 1 ≡ 2 ^ k → bit_and a b ≡ a
and_ones zero a b h e = ground (arith, zero_and b)
and_ones (suc k) a b h e = omega (
  arith,
  and_digit a b,
  pow-suc 2 k,
  and_ones k (a / 2) (b / 2) (omega (arith, pow-suc 2 k)) (omega (arith, pow-suc 2 k)),
)

zero_below : (n a : ℕ) → a ≤ n → (bit_and a 0 ≡ 0) × (bit_or a 0 ≡ a)
zero_below n zero h = (zero_and 0, zero_or 0)
zero_below zero (suc a) h = elim h [ ]
zero_below (suc n) (suc a) h =
    let ih = zero_below n (suc a / 2) (omega arith) in
    (omega (arith, and_digit (suc a) 0, ih.0), omega (arith, or_digit (suc a) 0, ih.1))

pub and_zero : (a : ℕ) → bit_and a 0 ≡ 0
and_zero a = (zero_below a a (omega arith)).0

pub or_zero : (a : ℕ) → bit_or a 0 ≡ a
or_zero a = (zero_below a a (omega arith)).1

-- A number below the lowest digit of another fills the gap.
pub or_low : (k q r : ℕ) → r < 2 ^ k → bit_or (q * 2 ^ k) r ≡ q * 2 ^ k + r
or_low k q r h = ground (arith, or_split k q 0 0 r (omega (arith, h)) h, or_zero q, zero_or r)

and_le_below : (n a b : ℕ) → a ≤ n → bit_and a b ≤ b
and_le_below n zero b h = omega (arith, zero_and b)
and_le_below zero (suc a) b h = elim h [ ]
and_le_below (suc n) (suc a) b h =
    omega (arith, and_digit (suc a) b, and_le_below n (suc a / 2) (b / 2) (omega arith))

pub and_le : (a b : ℕ) → bit_and a b ≤ b
and_le a b = and_le_below a a b (omega arith)
