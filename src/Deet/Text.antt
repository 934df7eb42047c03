-- ===== src/Deet/Text.antt =====
-- Text helpers, hw4/src/util.c. A C string is the list of its bytes up to the NUL.
pub mod Decimal
pub mod Cutting
use cse320_fall.Base.{
  ℕ, zero, suc, ◌+◌, ◌-◌, ◌*◌, ◌/◌, ◌%◌, Bool, ◌||◌, Option, none, some, List, [], ◌∷◌, ltb, ◌==◌,
  if◌then◌else◌,
}
use cse320_fall.Base.Int.{ℤ, pos, negsuc}
use cse320_fall.Deet.Children.{
  Pstate, pstate_none, running, stopping, stopped, continuing, killed, dead, code,
}

-- The string after the call, and the number of tabs that were replaced.
unfoldable pub replace_tabs_with_space : List ℕ → List ℕ × ℕ
replace_tabs_with_space [] = ([], 0)
replace_tabs_with_space (c ∷ s) =
    let (s', n) = replace_tabs_with_space s in
    if c == b'\n' then (c ∷ s, 0) else if c == b'\t' then (b' ' ∷ s', suc n) else (c ∷ s', n)

-- The loop of `str_to_int`; `none` is the result NULL. `result` is an `int`, which numbers of ten
-- digits and more may overflow; here it is not bounded.
unfoldable pub digits_from : (result : ℕ) → List ℕ → Option ℕ
digits_from result [] = some result
digits_from result (c ∷ s) =
    let rest = digits_from (result * 10 + (c - b'0')) s in
    if c == b'\n' then some result else if ltb c b'0' || ltb b'9' c then none else rest

unfoldable pub str_to_int : List ℕ → Option ℕ
str_to_int str = digits_from 0 str

-- `while (p /= 10) i++;` with fuel.
unfoldable pub size_loop : (fuel p i : ℕ) → ℕ
size_loop zero p i = i
size_loop (suc fuel) p i =
    let rest = size_loop fuel (p / 10) (suc i) in if p / 10 == 0 then i else rest

-- The number of digits of an `int` that is not negative.
unfoldable pub int_size : ℕ → ℕ
unfolding size_loop
int_size p = size_loop p p 1

-- The loop of `int_to_str` over `count` bytes, from the last one down.
unfoldable pub fill_digits : (count p : ℕ) → List ℕ → List ℕ
fill_digits zero p done = done
fill_digits (suc count) p done = fill_digits count (p / 10) ((p % 10 + b'0') ∷ done)

-- The bytes of the buffer that `int_to_str` allocates, all of them.
unfoldable pub int_to_str : ℕ → List ℕ
int_to_str p = fill_digits (int_size p) p []

-- Up to the first space, unless the string or the line ends before.
unfoldable pub trim_string : List ℕ → List ℕ
trim_string [] = []
trim_string (c ∷ s) =
    let rest = trim_string s in if c == b' ' then [] else if c == b'\n' then c ∷ s else c ∷ rest
