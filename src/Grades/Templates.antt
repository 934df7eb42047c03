-- ===== src/Grades/Templates.antt =====
-- The conversions of the error messages: `is_valid_template_string` of hw2/src/err_string.c. A C
-- string is the list of its bytes up to the NUL; a pointer into it is the number of bytes before.
pub mod Widths
use cse320_fall.Base.{
  ℕ, zero, suc, ◌+◌, Bool, true, false, not, ◌&&◌, ◌||◌, List, [], ◌∷◌, ◌==◌, leb, if◌then◌else◌,
}
use cse320_fall.Base.Int.{ℤ, pos, negsuc}

-- The `case` labels of the `switch`: a valid end, the flag `0`, a flag that stands first.
abbrev pub is_end : ℕ → Bool
is_end c = c == b'i' || c == b'd' || c == b's' || c == b'c' || c == b'f' || c == b'x' || c == b'p'

abbrev pub is_first_flag : ℕ → Bool
is_first_flag c = c == b'#' || c == b'-' || c == b'+'

abbrev pub is_digit : ℕ → Bool
is_digit c = leb b'0' c && leb c b'9'

-- What the `default` case accepts.
abbrev pub is_accepted : (flag decimal : Bool) → ℕ → Bool
is_accepted flag decimal c = is_digit c || ((c == b'.') && not decimal) || ((c == b'*') && not flag)

-- The loop, with `tmp` at byte `at`: the result and the place where `*tmpt` is left. `flag` says
-- that it is not 0.
unfoldable pub scan : (at : ℕ) → (flag decimal : Bool) → List ℕ → ℤ × ℕ
scan at flag decimal [] = (pos 0, 0)
scan at flag decimal (c ∷ s) =
    let flagged = scan (suc at) true decimal s in
    let rest = scan (suc at) flag (decimal || (c == b'.')) s in
    if c == b'\n' || c == b' '
    then (pos 0, at)
    else if is_end c
    then (pos 1, at)
    else if c == b'0'
    then (if flag then (negsuc 0, 0) else flagged)
    else if is_first_flag c
    then (if not (at == 1) || flag then (negsuc 0, 0) else flagged)
    else if is_accepted flag decimal c
    then rest
    else (negsuc 1, at)

unfoldable pub is_valid_template_string : (tmpt : List ℕ) → ℤ × ℕ
unfolding scan
is_valid_template_string [] = (pos 0, 0)
is_valid_template_string (c ∷ s) = if c == b'%' then scan 1 false false s else (pos 0, 0)
