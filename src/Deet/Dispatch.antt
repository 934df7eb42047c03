-- ===== src/Deet/Dispatch.antt =====
-- The command loop, hw4/src/main.c: what one round does with the command that `get_input` has read,
-- with `contains_state` and `hex_str_to_long` of hw4/src/util.c. What is printed, and the freeing of
-- the arguments, is left out. `strtoul` of the C library and what `ptrace` reads are parameters.
pub mod Complaints
use cse320_fall.Base.{
  ℕ, zero, suc, ◌-◌, ◌%◌, ◌^◌, Bool, true, false, ◌&&◌, Option, none, some, List, [], ◌∷◌, ◌==◌,
  ltb, if◌then◌else◌, length,
}
use cse320_fall.Base.Int.{ℤ, pos, negsuc}
use cse320_fall.Deet.Children.{
  Pstate, pstate_none, running, stopping, stopped, continuing, killed, dead, World, stdout,
}
use cse320_fall.Deet.Commands.{
  run_child_process, show_child_process, show_all_child_processes, continue_child_process,
  kill_child_process, stop_child_process, release_child_process, poke_in_process, with_traced,
}
use cse320_fall.Deet.Text.{str_to_int}

-- `CMD_HELP` and the others.
pub data Kind : Type 0 where
  help quit show run stop cont release wait kill peek poke bt : Kind

-- What `get_input` has left in `c`, `args` and `num_args`: a command with its arguments, an empty
-- line, the end of the input, or something else, with `args[0]` if it is set.
pub data Input : Type 0 where
  command : Kind → List (List ℕ) → Input
  empty_line end_of_input : Input
  unknown : Option (List ℕ) → Input

-- The text of `log_error`, which a printed `?` goes with.
pub data Complaint : Type 0 where
  named : Kind → Complaint
  invalid_process_id : Complaint
  text : List ℕ → Complaint

-- What follows: the next command, the wait for a child's state, or the shutdown.
pub data Next : Type 0 where
  again leaving : Next
  waiting : (deet_id : ℕ) → Pstate → Next

pub record Turn : Type 0 where
  pub world : World
  pub complaint : Option Complaint
  pub next : Next

abbrev pub served : World → Turn
served w = record { world = w; complaint = none; next = again }

abbrev pub refused : World → Complaint → Turn
refused w c = record { world = w; complaint = some c; next = again }

-- A command's result: -1 is complained of.
abbrev pub reported : Kind → World × ℤ → Turn
reported k (w, pos n) = served w
reported k (w, negsuc n) = refused w (named k)

abbrev pub number_or : Turn → Option ℕ → (ℕ → Turn) → Turn
number_or bad none use_number = bad
number_or bad (some n) use_number = use_number n

-- The first argument as an identifier.
abbrev pub with_id : World → Kind → (invalid : Complaint) → List (List ℕ) → (ℕ → Turn) → Turn
with_id w k invalid [] use_id = refused w (named k)
with_id w k invalid (arg ∷ args) use_id = number_or (refused w invalid) (str_to_int arg) use_id

abbrev same_text : List ℕ → List ℕ → Bool
same_text [] [] = true
same_text [] (b ∷ t) = false
same_text (a ∷ s) [] = false
same_text (a ∷ s) (b ∷ t) = (a == b) && same_text s t

-- `all_states` of hw4/src/deet_func.c.
abbrev all_states : List (Pstate × List ℕ)
all_states =
    (pstate_none, b'n' ∷ b'o' ∷ b'n' ∷ b'e' ∷ [])
    ∷ (running, b'r' ∷ b'u' ∷ b'n' ∷ b'n' ∷ b'i' ∷ b'n' ∷ b'g' ∷ [])
    ∷ (stopped, b's' ∷ b't' ∷ b'o' ∷ b'p' ∷ b'p' ∷ b'e' ∷ b'd' ∷ [])
    ∷ (continuing, b'c' ∷ b'o' ∷ b'n' ∷ b't' ∷ b'i' ∷ b'n' ∷ b'u' ∷ b'i' ∷ b'n' ∷ b'g' ∷ [])
    ∷ (dead, b'd' ∷ b'e' ∷ b'a' ∷ b'd' ∷ [])
    ∷ (stopping, b's' ∷ b't' ∷ b'o' ∷ b'p' ∷ b'p' ∷ b'i' ∷ b'n' ∷ b'g' ∷ [])
    ∷ (killed, b'k' ∷ b'i' ∷ b'l' ∷ b'l' ∷ b'e' ∷ b'd' ∷ [])
    ∷ []

abbrev state_named : List (Pstate × List ℕ) → List ℕ → Option Pstate
state_named [] str = none
state_named ((state, name) ∷ states) str =
    let rest = state_named states str in if same_text str name then some state else rest

unfoldable pub contains_state : List ℕ → Option Pstate
contains_state str = state_named all_states str

-- `wait` with its arguments.
unfoldable pub wait_turn : World → List (List ℕ) → Turn
wait_turn w [] = refused w (named wait)
wait_turn w (id ∷ []) =
    number_or (refused w (named wait)) (str_to_int id)
      λ deet_id. record { world = w; complaint = none; next = waiting deet_id dead }
wait_turn w (id ∷ name ∷ args) = number_or (refused w (named wait)) (str_to_int id) λ deet_id.
    elim (contains_state name) [
      | none ↦ refused w (named wait)
      | some state ↦ record { world = w; complaint = none; next = waiting deet_id state }
    ]

module _ (strtoul : List ℕ → ℕ) where
  -- The result as an `unsigned long`.
  unfoldable pub hex_str_to_long : List ℕ → ℕ
  hex_str_to_long [] = 2 ^ 64 - 1
  hex_str_to_long (a ∷ []) = if a == b'\n' then 2 ^ 64 - 1 else 0
  hex_str_to_long (a ∷ b ∷ s) =
      if a == b'\n'
      then 2 ^ 64 - 1
      else if (a == b'0') && (b == b'x')
      then strtoul s % 2 ^ 64
      else strtoul (a ∷ b ∷ s) % 2 ^ 64

  -- The address of `peek` and `poke`.
  abbrev pub with_address : World → Kind → List ℕ → (ℕ → Turn) → Turn
  with_address w k arg use_address =
      let addr = hex_str_to_long arg in if addr == 0 then refused w (named k) else use_address addr

  abbrev peek_at : World → (id address : List ℕ) → Turn
  peek_at w id address = number_or (refused w (named peek)) (str_to_int id) λ deet_id.
      with_address w peek address λ addr. reported peek (with_traced w deet_id λ c. (w, pos 0))

  -- The lines that `peek_in_process` prints are `peek_lines`.
  unfoldable pub peek_turn : World → List (List ℕ) → Turn
  peek_turn w (id ∷ address ∷ []) = peek_at w id address
  peek_turn w (id ∷ address ∷ limit ∷ []) =
      number_or (refused w (named peek)) (str_to_int limit) λ n. peek_at w id address
  peek_turn w _ = refused w (named peek)

  unfoldable pub poke_turn : World → List (List ℕ) → Turn
  poke_turn w (id ∷ address ∷ value ∷ []) =
      number_or (refused w (named poke)) (str_to_int id) λ deet_id.
        let amnt = hex_str_to_long value in
        if amnt == 2 ^ 64 - 1
        then refused w (named poke)
        else with_address w poke address λ addr. reported poke (poke_in_process w deet_id addr amnt)
  poke_turn w _ = refused w (named poke)

  -- The flag of each pid says whether `ptrace` gives its registers; the lines are `backtrace_lines`.
  module _ (has_registers : ℕ → Bool) where
    abbrev backtrace : World → ℕ → Turn
    backtrace w deet_id =
        reported bt
          (with_traced w deet_id λ c. (w, if has_registers c.pid then pos 0 else negsuc 0))

    unfoldable pub bt_turn : World → List (List ℕ) → Turn
    bt_turn w (id ∷ []) =
        number_or (refused w (named bt)) (str_to_int id) λ deet_id. backtrace w deet_id
    bt_turn w (id ∷ limit ∷ []) =
        number_or (refused w (named bt)) (str_to_int id)
          λ deet_id. number_or (refused w (named bt)) (str_to_int limit) λ n. backtrace w deet_id
    bt_turn w _ = refused w (named bt)

    -- `pid` is what `fork` gives the parent for `run`.
    unfoldable pub command_turn : (pid : ℕ) → World → Kind → List (List ℕ) → Turn
    command_turn pid w help args = served w
    command_turn pid w quit [] = record { world = w; complaint = none; next = leaving }
    command_turn pid w quit (arg ∷ args) = refused w (named quit)
    command_turn pid w show [] = served (show_all_child_processes w stdout)
    command_turn pid w show (arg ∷ args) =
        with_id w show (named show) (arg ∷ args)
          λ deet_id. served (show_child_process w deet_id stdout)
    command_turn pid w run [] = refused w (named run)
    command_turn pid w run (arg ∷ args) = served (run_child_process w pid (arg ∷ args)).0
    command_turn pid w stop args =
        with_id w stop (named stop) args λ deet_id. reported stop (stop_child_process w deet_id)
    command_turn pid w cont args =
        with_id w cont (named cont) args
          λ deet_id. reported cont (continue_child_process w deet_id stdout)
    command_turn pid w release args =
        with_id w release (named release) args
          λ deet_id. reported release (release_child_process w deet_id)
    command_turn pid w wait args = wait_turn w args
    command_turn pid w kill args =
        with_id w kill invalid_process_id args
          λ deet_id. reported kill (kill_child_process w deet_id)
    command_turn pid w peek args = peek_turn w args
    command_turn pid w poke args = poke_turn w args
    command_turn pid w bt args = bt_turn w args

    unfoldable pub turn : (pid : ℕ) → World → Input → Turn
    turn pid w (command k args) = command_turn pid w k args
    turn pid w empty_line = served w
    turn pid w end_of_input = record { world = w; complaint = none; next = leaving }
    turn pid w (unknown none) = refused w (text [])
    turn pid w (unknown (some arg)) = refused w (text arg)
