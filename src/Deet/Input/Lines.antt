-- ===== src/Deet/Input/Lines.antt =====
-- What `get_input` (hw4/src/deet_func.c) reads from a line of words.
use cse320_fall.Base.{
  ℕ, zero, suc, ◌+◌, ◌<◌, ◌≤◌, ◌≡◌, ◌≢◌, refl, ap, ◌∙◌, subst, false, Option, none, some,
  if◌then◌else◌, List, [], ◌∷◌, ◌++◌, ◌==◌, ltb, leb, length, length-append, All, arith, Bool-cases,
  inl, inr,
}
use cse320_fall.Base.Int.{pos}
use cse320_fall.Deet.Text.{replace_tabs_with_space}
use cse320_fall.Deet.Dispatch.{Kind, command}
use cse320_fall.Deet.Input.{
  token_of, behind, strtok, arguments, last_without_newline, count_and_add_args, commands,
  find_command, Read, read, fault, look_up, split_line, get_input,
}
use cse320_fall.Deet.Input.Words.{
  IsPlain, IsWord, tail_of, newline, token_of-word, behind-word, token_of-end, behind-end,
  token_of-line, token_of-plain, strtok-word, All-sep, trim_string-word, trim_string-end,
  without_newline-end,
}

-- The arguments as they are read, the newline still on the last one.
abbrev marked : List ℕ → List (List ℕ) → List (List ℕ)
marked a [] = (a ++ newline) ∷ []
marked a (b ∷ args) = a ∷ marked b args

arguments-nil : (fuel : ℕ) → arguments fuel [] ≡ []
unfolding arguments strtok
arguments-nil zero = refl
arguments-nil (suc fuel) = refl

arguments-marked :
    (fuel : ℕ) (a : List ℕ) (args : List (List ℕ))
    → length args < fuel
    → IsWord a
    → All IsWord args
    → arguments (suc fuel) (a ++ tail_of args) ≡ marked a args
unfolding arguments
arguments-marked fuel a [] l h all =
    rw
      (
        arguments,
        strtok-word b' ' a newline h.0 (All-sep a h.1).0,
        token_of-end a h.1,
        behind-end a h.1,
        trim_string-end a h.1,
      )
      (ap (λ l. (a ++ newline) ∷ l) (arguments-nil fuel))
arguments-marked zero a (b ∷ args) l h all = absurd (omega arith)
arguments-marked (suc fuel) a (b ∷ args) l h all =
    rw
      (
        arguments,
        strtok-word b' ' a (tail_of (b ∷ args)) h.0 (All-sep a h.1).0,
        token_of-word a (b ++ tail_of args) h.1,
        behind-word a (b ++ tail_of args) h.1,
        trim_string-word a h.1,
      )
      (ap (λ l. a ∷ l) (arguments-marked fuel b args (omega arith) all.0 all.1))

last_without_newline-marked :
    (a : List ℕ) (args : List (List ℕ)) → last_without_newline (marked a args) ≡ a ∷ args
last_without_newline-marked a [] = ap (λ w. w ∷ []) (without_newline-end a)
last_without_newline-marked a (b ∷ []) = ap (λ l. a ∷ l) (last_without_newline-marked b [])
last_without_newline-marked a (b ∷ c ∷ args) =
    ap (λ l. a ∷ l) (last_without_newline-marked b (c ∷ args))

tail_of-length : (w : List ℕ) (args : List (List ℕ)) → length args < length (w ++ tail_of args)
tail_of-length [] [] = omega arith
tail_of-length [] (a ∷ args) = omega (arith, tail_of-length a args)
tail_of-length (c ∷ w) args = omega (arith, tail_of-length w args)

marked-length : (a : List ℕ) (args : List (List ℕ)) → length (marked a args) ≡ suc (length args)
marked-length a [] = refl
marked-length a (b ∷ args) = ap suc (marked-length b args)

-- The words, if they and the NULL behind them have a place in `args`.
abbrev pub placed : List (List ℕ) → Option (List (List ℕ))
placed args = if ltb (length args) 64 then some args else none

count_and_add_args-tail_of :
    (cmd : List ℕ) (args : List (List ℕ))
    → IsWord cmd
    → All IsWord args
    → count_and_add_args (cmd ++ tail_of args) ≡ placed args
unfolding count_and_add_args arguments
count_and_add_args-tail_of cmd [] h all =
    rw
      (count_and_add_args, strtok-word b' ' cmd newline h.0 (All-sep cmd h.1).0, behind-end cmd h.1)
      refl
count_and_add_args-tail_of cmd (a ∷ args) h all =
    let more : length (a ++ tail_of args) + 1 ≡ suc (length (a ++ tail_of args)) = omega arith in
    let read_args : arguments (length (a ++ tail_of args) + 1) (a ++ tail_of args) ≡ marked a args =
      ap (λ n. arguments n (a ++ tail_of args)) more
      ∙ arguments-marked (length (a ++ tail_of args)) a args (tail_of-length a args) all.0 all.1 in
    rw
      (
        count_and_add_args,
        strtok-word b' ' cmd (tail_of (a ∷ args)) h.0 (All-sep cmd h.1).0,
        behind-word cmd (a ++ tail_of args) h.1,
        read_args,
        marked-length a args,
        last_without_newline-marked a args,
      )
      refl

append_nil : (w : List ℕ) → w ++ [] ≡ w
append_nil [] = refl
append_nil (c ∷ w) = ap (λ s. c ∷ s) (append_nil w)

-- Without a tab a string is left as it is.
replace_tabs-none : (s : List ℕ) → All (λ c. c ≢ b'\t') s → (replace_tabs_with_space s).0 ≡ s
unfolding replace_tabs_with_space
replace_tabs-none [] h = refl
replace_tabs-none (c ∷ s) h =
    let plain : (c == b'\t') ≡ false = ground arith in
    elim (Bool-cases (c == b'\n')) [
      | inl ends ↦ rw (replace_tabs_with_space, ends) refl
      | inr on ↦ rw (replace_tabs_with_space, on, plain) (ap (λ t. c ∷ t) (replace_tabs-none s h.1))
    ]

line_no_tab :
    (w : List ℕ) (args : List (List ℕ))
    → All IsPlain w
    → All IsWord args
    → All (λ c. c ≢ b'\t') (w ++ tail_of args)
line_no_tab [] [] h all = (omega arith, tt)
line_no_tab [] (a ∷ args) h all = (omega arith, line_no_tab a args all.0.1 all.1)
line_no_tab (c ∷ w) args h all = (h.0.2, line_no_tab w args h.1 all)

strtok-plain : (w : List ℕ) → IsWord w → strtok b'\n' w ≡ some (w, behind b'\n' w)
strtok-plain w h =
    subst (λ v. strtok b'\n' v ≡ some (token_of b'\n' v, behind b'\n' v)) (append_nil w)
      (strtok-word b'\n' w [] h.0 (All-sep w h.1).1)
    ∙ ap (λ v. some (v, behind b'\n' w)) (token_of-plain w h.1)

-- The word that is looked up.
split_line-tail_of :
    (n : ℕ) (cmd : List ℕ) (args : List (List ℕ))
    → 2 ≤ length cmd
    → IsWord cmd
    → All IsWord args
    → length (cmd ++ tail_of args) ≡ n
    → split_line n (cmd ++ tail_of args) [] ≡ look_up cmd (cmd ++ tail_of args)
unfolding split_line
split_line-tail_of n cmd [] two h all len =
    let long : leb (length (cmd ++ newline)) 1 ≡ false =
      ground (arith, length-append cmd newline) in
    let whole : ltb (length (cmd ++ newline)) n ≡ false = ground arith in
    rw
      (
        split_line,
        strtok-word b' ' cmd newline h.0 (All-sep cmd h.1).0,
        token_of-end cmd h.1,
        long,
        strtok-word b'\n' cmd newline h.0 (All-sep cmd h.1).1,
        token_of-line cmd h.1,
        whole,
        append_nil (cmd ++ newline),
      )
      refl
split_line-tail_of n cmd (a ∷ args) two h all len =
    let rest = a ++ tail_of args in
    let long : leb (length cmd) 1 ≡ false = ground arith in
    let whole : ltb (length (cmd ++ b' ' ∷ rest)) n ≡ false = ground arith in
    let again : strtok b'\n' cmd ≡ some (cmd, behind b'\n' cmd) = strtok-plain cmd h in
    rw
      (
        split_line,
        strtok-word b' ' cmd (b' ' ∷ rest) h.0 (All-sep cmd h.1).0,
        token_of-word cmd rest h.1,
        long,
        again,
        whole,
        append_nil (cmd ++ b' ' ∷ rest),
      )
      refl

-- What is read from a line with these words behind the command.
abbrev pub outcome_of : Kind → List (List ℕ) → Read
outcome_of k args = if ltb (length args) 64 then read (command k args) else fault

outcome_placed :
    (k : Kind) (args : List (List ℕ))
    → elim (placed args) [ none ↦ fault | some l ↦ read (command k l) ] ≡ outcome_of k args
outcome_placed k args = ground arith

-- A line of at most 256 bytes that is a command's name in any case, then words, each after one
-- space, and a newline, with the byte behind the copy of the line 0: with at most 63 words it is
-- read as that command with those words as its arguments, with more of them the end of `args` is
-- passed.
pub get_input-tail_of :
    (k : Kind) (cmd : List ℕ) (args : List (List ℕ))
    → find_command commands cmd ≡ some k
    → 2 ≤ length cmd
    → IsWord cmd
    → All IsWord args
    → length (cmd ++ tail_of args) ≤ 256
    → get_input (pos (length (cmd ++ tail_of args))) (cmd ++ tail_of args) [] ≡ outcome_of k args
unfolding get_input look_up
get_input-tail_of k [] args f two h all fits = absurd (omega arith)
get_input-tail_of k (c ∷ w) args f two h all fits =
    let cmd = c ∷ w in
    let n = length (cmd ++ tail_of args) in
    let some_read : (n == 0) ≡ false = ground arith in
    let in_time : ltb 256 n ≡ false = ground arith in
    let starts : (c == b'\n') ≡ false = ground arith in
    rw
      (
        get_input,
        some_read,
        in_time,
        starts,
        replace_tabs-none (cmd ++ tail_of args) (line_no_tab cmd args h.1 all),
        split_line-tail_of n cmd args two h all refl,
        look_up,
        f,
        count_and_add_args-tail_of cmd args h all,
      )
      (outcome_placed k args)
