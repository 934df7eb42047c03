-- ===== src/Grades/Templates/Widths.antt =====
-- Widths in a conversion, for `is_valid_template_string` of hw2/src/err_string.c.
use cse320_fall.Base.{
  ℕ, suc, ◌+◌, ◌≡◌, ◌≤◌, Bool, true, false, refl, ap, ◌∙◌, List, [], ◌∷◌, ◌++◌, All, length, arith,
}
use cse320_fall.Base.Int.{pos, negsuc}
use cse320_fall.Grades.Templates.{is_end, scan, is_valid_template_string}

-- A digit of a width that is not `0`.
abbrev pub IsWidth : ℕ → Type 0
IsWidth c = (b'1' ≤ c) × (c ≤ b'9')

scan_step :
    (at : ℕ) (flag decimal : Bool) (c : ℕ) (s : List ℕ)
    → IsWidth c
    → scan at flag decimal (c ∷ s) ≡ scan (suc at) flag decimal s
unfolding scan
scan_step at flag decimal c s (low, high) = ground arith

-- The loop passes over such digits, whatever was read before them.
scan-width :
    (at n : ℕ) (flag decimal : Bool) (w s : List ℕ)
    → All IsWidth w
    → n ≡ at + length w
    → scan at flag decimal (w ++ s) ≡ scan n flag decimal s
scan-width at n flag decimal [] s _ same =
    let here : at ≡ n = omega arith in ap (λ k. scan k flag decimal s) here
scan-width at n flag decimal (c ∷ w) s (c_digit, digits) same =
    scan_step at flag decimal c (w ++ s) c_digit
    ∙ scan-width (suc at) n flag decimal w s digits (omega arith)

scan_end :
    (at : ℕ) (flag decimal : Bool) (c : ℕ) (s : List ℕ)
    → is_end c ≡ true
    → scan at flag decimal (c ∷ s) ≡ (pos 1, at)
unfolding scan
scan_end at flag decimal c s ends = ground arith

-- A conversion is a `%`, any digits of a width without `0`, and an end: it is valid, and the place
-- is that of the end.
pub is_valid_template_string-width :
    (w : List ℕ) (c : ℕ) (s : List ℕ)
    → All IsWidth w
    → is_end c ≡ true
    → is_valid_template_string (b'%' ∷ w ++ c ∷ s) ≡ (pos 1, 1 + length w)
unfolding is_valid_template_string
is_valid_template_string-width w c s digits ends =
    scan-width 1 (1 + length w) false false w (c ∷ s) digits refl
    ∙ scan_end (1 + length w) false false c s ends

-- A width with two digits `0`, as in `%100d`, is refused as a repeated flag.
pub is_valid_template_string_zeros :
    (w v s : List ℕ)
    → All IsWidth w
    → All IsWidth v
    → is_valid_template_string (b'%' ∷ w ++ (b'0' ∷ v ++ (b'0' ∷ s))) ≡ (negsuc 0, 0)
unfolding is_valid_template_string scan
is_valid_template_string_zeros w v s digits others =
    scan-width 1 (1 + length w) false false w (b'0' ∷ v ++ (b'0' ∷ s)) digits refl
    ∙ scan-width (suc (1 + length w)) (2 + length w + length v) true false v (b'0' ∷ s) others
        (omega arith)
