-- ===== src/Deet/Input/Words.antt =====
-- What `strtok` and `trim_string` (hw4/src/deet_func.c, util.c) find in a line of words.
use cse320_fall.Base.{
  ℕ, ◌<◌, ◌≡◌, ◌≢◌, refl, ap, false, some, List, [], ◌∷◌, ◌++◌, ◌==◌, length, All, arith,
}
use cse320_fall.Deet.Text.{trim_string}
use cse320_fall.Deet.Input.{token_of, behind, strtok, without_newline}

-- A byte of a word.
abbrev pub IsPlain : ℕ → Type 0
IsPlain c = (c ≢ b' ') × (c ≢ b'\n') × (c ≢ b'\t')

abbrev pub IsWord : List ℕ → Type 0
IsWord w = (0 < length w) × All IsPlain w

-- The words behind the command, each after a space, and the newline.
abbrev pub tail_of : List (List ℕ) → List ℕ
tail_of [] = b'\n' ∷ []
tail_of (a ∷ args) = b' ' ∷ (a ++ tail_of args)

abbrev pub newline : List ℕ
newline = b'\n' ∷ []

pub token_of-word : (w r : List ℕ) → All IsPlain w → token_of b' ' (w ++ b' ' ∷ r) ≡ w
token_of-word [] r h = refl
token_of-word (c ∷ w) r h =
    let other : (c == b' ') ≡ false = ground arith in
    rw other (ap (λ s. c ∷ s) (token_of-word w r h.1))

pub behind-word : (w r : List ℕ) → All IsPlain w → behind b' ' (w ++ b' ' ∷ r) ≡ r
behind-word [] r h = refl
behind-word (c ∷ w) r h =
    let other : (c == b' ') ≡ false = ground arith in rw other (behind-word w r h.1)

pub token_of-end : (w : List ℕ) → All IsPlain w → token_of b' ' (w ++ newline) ≡ w ++ newline
token_of-end [] h = refl
token_of-end (c ∷ w) h =
    let other : (c == b' ') ≡ false = ground arith in
    rw other (ap (λ s. c ∷ s) (token_of-end w h.1))

pub behind-end : (w : List ℕ) → All IsPlain w → behind b' ' (w ++ newline) ≡ []
behind-end [] h = refl
behind-end (c ∷ w) h = let other : (c == b' ') ≡ false = ground arith in rw other (behind-end w h.1)

pub token_of-line : (w : List ℕ) → All IsPlain w → token_of b'\n' (w ++ newline) ≡ w
token_of-line [] h = refl
token_of-line (c ∷ w) h =
    let other : (c == b'\n') ≡ false = ground arith in
    rw other (ap (λ s. c ∷ s) (token_of-line w h.1))

pub token_of-plain : (w : List ℕ) → All IsPlain w → token_of b'\n' w ≡ w
token_of-plain [] h = refl
token_of-plain (c ∷ w) h =
    let other : (c == b'\n') ≡ false = ground arith in
    rw other (ap (λ s. c ∷ s) (token_of-plain w h.1))

-- `strtok` at the first byte of a word, whatever follows the word.
pub strtok-word :
    (sep : ℕ) (w r : List ℕ)
    → 0 < length w
    → All (λ c. c ≢ sep) w
    → strtok sep (w ++ r) ≡ some (token_of sep (w ++ r), behind sep (w ++ r))
unfolding strtok
strtok-word sep [] r p h = absurd (omega arith)
strtok-word sep (c ∷ w) r p h = let other : (c == sep) ≡ false = ground arith in ground arith

pub All-sep : (w : List ℕ) → All IsPlain w → All (λ c. c ≢ b' ') w × All (λ c. c ≢ b'\n') w
All-sep [] h = (tt, tt)
All-sep (c ∷ w) h = let (a, b) = All-sep w h.1 in ((h.0.0, a), (h.0.1, b))

pub trim_string-word : (w : List ℕ) → All IsPlain w → trim_string w ≡ w
unfolding trim_string
trim_string-word [] h = refl
trim_string-word (c ∷ w) h =
    let a : (c == b' ') ≡ false = ground arith in
    let b : (c == b'\n') ≡ false = ground arith in
    rw (trim_string, a, b) (ap (λ s. c ∷ s) (trim_string-word w h.1))

pub trim_string-end : (w : List ℕ) → All IsPlain w → trim_string (w ++ newline) ≡ w ++ newline
unfolding trim_string
trim_string-end [] h = refl
trim_string-end (c ∷ w) h =
    let a : (c == b' ') ≡ false = ground arith in
    let b : (c == b'\n') ≡ false = ground arith in
    rw (trim_string, a, b) (ap (λ s. c ∷ s) (trim_string-end w h.1))

pub without_newline-end : (w : List ℕ) → without_newline (w ++ newline) ≡ w
without_newline-end [] = refl
without_newline-end (c ∷ []) = refl
without_newline-end (c ∷ b ∷ w) = ap (λ s. c ∷ s) (without_newline-end (b ∷ w))
