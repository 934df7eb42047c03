-- ===== src/Deet/Input.antt =====
-- The reading of a command line: `get_input` and `count_and_add_args` of hw4/src/deet_func.c, over
-- the table of hw4/src/commands.c. A C string is the list of its bytes up to the NUL. Allocation
-- does not fail. What is printed and logged is left out.
pub mod Words
pub mod Lines
use cse320_fall.Base.{
  ℕ, zero, suc, ◌+◌, Bool, true, false, ◌&&◌, Option, none, some, List, [], ◌∷◌, ◌++◌, map, ◌==◌,
  ltb, leb, if◌then◌else◌, length,
}
use cse320_fall.Base.Int.{ℤ, pos, negsuc}
use cse320_fall.Deet.Text.{replace_tabs_with_space, trim_string}
use cse320_fall.Deet.Dispatch.{
  Kind, help, quit, show, run, stop, cont, release, wait, kill, peek, poke, bt, Input, command,
  empty_line, end_of_input, unknown,
}

-- `strtok` with one separator: the bytes before the first token are skipped, the token ends at the
-- next separator, and the search goes on behind it.
abbrev pub skip : (sep : ℕ) → List ℕ → List ℕ
skip sep [] = []
skip sep (c ∷ s) = let rest = skip sep s in if c == sep then rest else c ∷ s

abbrev pub token_of : (sep : ℕ) → List ℕ → List ℕ
token_of sep [] = []
token_of sep (c ∷ s) = let rest = token_of sep s in if c == sep then [] else c ∷ rest

abbrev pub behind : (sep : ℕ) → List ℕ → List ℕ
behind sep [] = []
behind sep (c ∷ s) = let rest = behind sep s in if c == sep then s else rest

unfoldable pub strtok : (sep : ℕ) → List ℕ → Option (List ℕ × List ℕ)
strtok sep s = elim (skip sep s) [
  | [] ↦ none
  | c ∷ t ↦ some (token_of sep (c ∷ t), behind sep (c ∷ t))
]

-- `while (token != NULL)`, on a round more than the bytes at the most.
unfoldable pub arguments : (fuel : ℕ) → List ℕ → List (List ℕ)
unfolding strtok
arguments zero s = []
arguments (suc fuel) s = elim (strtok b' ' s) [
  | none ↦ []
  | some (token, rest) ↦ trim_string token ∷ arguments fuel rest
]

-- A newline at the end of the last argument is cut off.
abbrev pub without_newline : List ℕ → List ℕ
without_newline [] = []
without_newline (c ∷ []) = if c == b'\n' then [] else c ∷ []
without_newline (c ∷ b ∷ s) = c ∷ without_newline (b ∷ s)

abbrev pub last_without_newline : List (List ℕ) → List (List ℕ)
last_without_newline [] = []
last_without_newline (arg ∷ []) = without_newline arg ∷ []
last_without_newline (arg ∷ next ∷ args) = arg ∷ last_without_newline (next ∷ args)

-- The entries of `args` in main.c.
abbrev pub max_arg_size : ℕ
max_arg_size = 64

-- The first token, the command, is passed over. The other tokens and a NULL behind them go to
-- `args`; `none` is a write behind its end.
unfoldable pub count_and_add_args : (buffer : List ℕ) → Option (List (List ℕ))
unfolding arguments
count_and_add_args buffer = elim (strtok b' ' buffer) [
  | none ↦ some []
  | some (token, rest) ↦
      let args = arguments (length rest + 1) rest in
      if ltb (length args) max_arg_size then some (last_without_newline args) else none
]

abbrev pub commands : List (Kind × List ℕ)
commands =
    (help, b'h' ∷ b'e' ∷ b'l' ∷ b'p' ∷ [])
    ∷ (quit, b'q' ∷ b'u' ∷ b'i' ∷ b't' ∷ [])
    ∷ (show, b's' ∷ b'h' ∷ b'o' ∷ b'w' ∷ [])
    ∷ (run, b'r' ∷ b'u' ∷ b'n' ∷ [])
    ∷ (stop, b's' ∷ b't' ∷ b'o' ∷ b'p' ∷ [])
    ∷ (cont, b'c' ∷ b'o' ∷ b'n' ∷ b't' ∷ [])
    ∷ (release, b'r' ∷ b'e' ∷ b'l' ∷ b'e' ∷ b'a' ∷ b's' ∷ b'e' ∷ [])
    ∷ (wait, b'w' ∷ b'a' ∷ b'i' ∷ b't' ∷ [])
    ∷ (kill, b'k' ∷ b'i' ∷ b'l' ∷ b'l' ∷ [])
    ∷ (peek, b'p' ∷ b'e' ∷ b'e' ∷ b'k' ∷ [])
    ∷ (poke, b'p' ∷ b'o' ∷ b'k' ∷ b'e' ∷ [])
    ∷ (bt, b'b' ∷ b't' ∷ [])
    ∷ []

abbrev pub to_lower : ℕ → ℕ
to_lower c = if leb b'A' c && leb c b'Z' then c + 32 else c

-- `strlen(s) == strlen(t)`, and `strncasecmp` over that length.
abbrev pub same_word : List ℕ → List ℕ → Bool
same_word [] [] = true
same_word [] (b ∷ t) = false
same_word (a ∷ s) [] = false
same_word (a ∷ s) (b ∷ t) = (to_lower a == to_lower b) && same_word s t

unfoldable pub find_command : List (Kind × List ℕ) → List ℕ → Option Kind
find_command [] word = none
find_command ((k, name) ∷ more) word =
    let rest = find_command more word in if same_word word name then some k else rest

-- What the caller finds: an input; the arguments and their number of the round before; or nothing,
-- after a read through NULL or a write behind the end of `args`.
pub data Read : Type 0 where
  read : Input → Read
  stale fault : Read

-- The bytes of `tmp_buffer`, which has no room for a NUL, and the `beyond` bytes behind it.
abbrev pub tmp_buffer : (chars_read : ℕ) (buffer beyond : List ℕ) → List ℕ
tmp_buffer chars_read buffer beyond =
    if ltb (length buffer) chars_read then buffer else buffer ++ beyond

-- Once the command is cut out of the line.
unfoldable pub look_up : (word tmp : List ℕ) → Read
unfolding find_command count_and_add_args
look_up word tmp = elim (find_command commands word) [
  | none ↦ read (unknown (some word))
  | some k ↦ elim (count_and_add_args tmp) [ none ↦ fault | some args ↦ read (command k args) ]
]

unfoldable pub split_line : (chars_read : ℕ) (buffer beyond : List ℕ) → Read
unfolding look_up
split_line chars_read buffer beyond = elim (strtok b' ' buffer) [
  | none ↦ fault
  | some (token, rest) ↦ if leb (length token) 1 then stale else elim (strtok b'\n' token) [
    | none ↦ fault
    | some (word, end) ↦ look_up word (tmp_buffer chars_read buffer beyond)
  ]
]

abbrev pub max_line : ℕ
max_line = 256

-- `chars_read` and `buffer` are what `getline` leaves.
unfoldable pub get_input : (chars_read : ℤ) (buffer beyond : List ℕ) → Read
unfolding split_line
get_input chars_read [] beyond = read end_of_input
get_input (negsuc n) (c ∷ buffer) beyond = read end_of_input
get_input (pos n) (c ∷ buffer) beyond =
    let (spaced, tabs) = replace_tabs_with_space (c ∷ buffer) in
    if n == 0
    then read (unknown none)
    else if ltb max_line n
    then read (unknown none)
    else if c == b'\n'
    then read empty_line
    else split_line n spaced beyond
