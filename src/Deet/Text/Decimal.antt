-- ===== src/Deet/Text/Decimal.antt =====
-- Printing and reading numbers (hw4/src/util.c: `int_size`, `int_to_str`, `str_to_int`).
use cse320_fall.Base.{
  ℕ, zero, suc, ◌+◌, ◌-◌, ◌*◌, ◌/◌, ◌%◌, ◌^◌, ◌≤◌, ◌<◌, ◌≡◌, ◌∙◌, ap, ◌⊎◌, refl, inl, inr, some,
  List, [], ◌∷◌, arith, ltb, ◌==◌, length, All, Bool-cases,
}
use native.Mathlib.Nat.{pow-suc}
use cse320_fall.Deet.Text.{digits_from, str_to_int, size_loop, int_size, fill_digits, int_to_str}

-- `p` needs `suc k` digits.
pub record Needs (p k : ℕ) : Type 0 where
  pub enough : p < 10 ^ suc k
  pub no_fewer : (p ≡ 0) ⊎ (10 ^ k ≤ p)

size_loop-suc : (fuel p i : ℕ) → size_loop fuel p (suc i) ≡ suc (size_loop fuel p i)
unfolding size_loop
size_loop-suc zero p i = refl
size_loop-suc (suc fuel) p i = ground (arith, size_loop-suc fuel (p / 10) (suc i))

Needs-suc : (p k : ℕ) → 0 < p / 10 → Needs (p / 10) k → Needs p (suc k)
Needs-suc p k h v = record {
  enough = omega (arith, pow-suc 10 (suc k), v.enough);
  no_fewer = inr (omega (arith, pow-suc 10 k, v.no_fewer));
}

size_loop-Needs : (fuel p : ℕ) → p ≤ fuel → (k : ℕ) × (size_loop fuel p 1 ≡ suc k) × Needs p k
unfolding size_loop
size_loop-Needs zero p h = (0, refl, record { enough = omega arith; no_fewer = inl (omega arith) })
size_loop-Needs (suc fuel) p h = elim (Bool-cases (p / 10 == 0)) [
  | inl one ↦ (
    0,
    rw one,
    record {
      enough = ground arith;
      no_fewer = elim (Bool-cases (p == 0)) [
        | inl nought ↦ inl (ground arith)
        | inr positive ↦ inr (ground arith)
      ];
    },
  )
  | inr more ↦
      let (k, e, v) = size_loop-Needs fuel (p / 10) (omega arith) in
      (suc k, rw (more, size_loop-suc fuel (p / 10) 1, e), Needs-suc p k (ground arith) v)
]

-- `int_size` terminates within `p` rounds, and is the least number of decimal digits that `p`
-- fits into, and 1 for 0.
pub int_size-Needs : (p : ℕ) → (k : ℕ) × (int_size p ≡ suc k) × Needs p k
unfolding int_size
int_size-Needs p = size_loop-Needs p p (omega arith)

-- Reading the digits that `int_to_str` wrote.
digits_from-fill :
    (count p result : ℕ) (tail : List ℕ)
    → p < 10 ^ count
    → digits_from result (fill_digits count p tail) ≡ digits_from (result * 10 ^ count + p) tail
unfolding digits_from fill_digits
digits_from-fill zero p result tail h = ap (λ r. digits_from r tail) (omega arith)
digits_from-fill (suc count) p result tail h =
    digits_from-fill count (p / 10) result ((p % 10 + 48) ∷ tail) (omega (arith, pow-suc 10 count))
    ∙ digit
  where
    digit :
        digits_from (result * 10 ^ count + p / 10) ((p % 10 + 48) ∷ tail)
        ≡ digits_from (result * 10 ^ suc count + p) tail
    digit = elim (Bool-cases (ltb (p % 10 + 48) 48)) [
      | inl low ↦ absurd (ground arith)
      | inr high ↦ ground (arith, pow-suc 10 count, ap (λ r. digits_from r tail) next)
    ]
      where
        next :
            (result * 10 ^ count + p / 10) * 10 + (p % 10 + 48 - 48) ≡ result * 10 ^ suc count + p
        next = omega (arith, ap (λ (t : ℕ). result * t) (pow-suc 10 count))

-- The digits that `int_to_str` writes for a number, ended by a NUL, read back by `str_to_int` as
-- that number.
pub str_to_int-int_to_str : (p : ℕ) → str_to_int (int_to_str p) ≡ some p
unfolding str_to_int int_to_str
str_to_int-int_to_str p =
    let (k, e, v) = int_size-Needs p in rw e (digits_from-fill (suc k) p 0 [] v.enough ∙ whole)
  where
    whole : digits_from (0 * 10 ^ suc (int_size-Needs p).0 + p) [] ≡ some p
    whole = unfold digits_from in ground arith

fill_digits-length :
    (count p : ℕ) (tail : List ℕ) → length (fill_digits count p tail) ≡ count + length tail
unfolding fill_digits
fill_digits-length zero p tail = omega arith
fill_digits-length (suc count) p tail =
    omega (arith, fill_digits-length count (p / 10) ((p % 10 + 48) ∷ tail))

abbrev pub IsDigit : ℕ → Type 0
IsDigit c = (48 ≤ c) × (c ≤ 57)

fill_digits-IsDigit :
    (count p : ℕ) (tail : List ℕ) → All IsDigit tail → All IsDigit (fill_digits count p tail)
unfolding fill_digits
fill_digits-IsDigit zero p tail a = a
fill_digits-IsDigit (suc count) p tail a =
    fill_digits-IsDigit count (p / 10) ((p % 10 + 48) ∷ tail) ((omega arith, omega arith), a)

-- The buffer that `int_to_str` allocates for a number holds as many bytes as the number has
-- digits, and each is a digit: none of them is the NUL that would end the string.
pub int_to_str-IsDigit : (p : ℕ) → (length (int_to_str p) ≡ int_size p) × All IsDigit (int_to_str p)
unfolding int_to_str
int_to_str-IsDigit p =
    (omega (arith, fill_digits-length (int_size p) p []), fill_digits-IsDigit (int_size p) p [] tt)
