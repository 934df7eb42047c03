-- ===== src/Examples/Tracker.antt =====
-- The tracker of hw4 on small tables of children.
use cse320_fall.Base.{
  ℕ, ◌≡◌, ◌≢◌, ◌≤◌, inr, refl, true, false, some, List, [], ◌∷◌, arith, set, All, ◌==◌,
}
use cse320_fall.Base.Int.{pos, negsuc}
use cse320_fall.Deet.Children.{
  Pstate, running, stopped, killed, dead, Child, World, count_in_state, spawn_child,
  get_child_by_deet_id_ig,
}
use cse320_fall.Deet.Children.{get_child, get_child_by_deet_id, find_from, is_state}
use cse320_fall.Deet.Commands.{stop_child_process}
use cse320_fall.Deet.Children.Ordering.{IsFresh}
use cse320_fall.Deet.Children.Numbering.{
  IsNumbered, alive, count_id, spawn_child-IsNumbered, spawn_child_duplicate,
}
use cse320_fall.Deet.Waiting.{
  wait_loop, suspend_until_state, Occurrence, advance, arrive, tested, suspended, returned,
}
use cse320_fall.Deet.Waiting.Blocking.{BringsEnding, suspend_until_state_blocks}
use cse320_fall.Deet.Waiting.Exits.{advances, wait_loop_exit}
use cse320_fall.Deet.Dispatch.{Input, command, stop, named, again, command_turn, turn}
use cse320_fall.Deet.Dispatch.Complaints.{turn-complaint}
use cse320_fall.Deet.Reaping.{WaitStatus, handle_report}
use cse320_fall.Deet.Reaping.Outcomes.{reported, handle_report_lem}
use cse320_fall.Deet.Input.{read, get_input, find_command}
use cse320_fall.Deet.Input.Words.{IsWord}
use cse320_fall.Deet.Input.Lines.{get_input-tail_of}
use cse320_fall.Deet.Text.{replace_tabs_with_space, trim_string, digits_from, str_to_int}

abbrev child_at : (pid id : ℕ) → Pstate → Child
child_at pid id s = record {
  pid = pid;
  deet_id = id;
  status = s;
  trace = true;
  exit_status = negsuc 0;
  args = [];
}

abbrev world_of : List Child → World
world_of cs = record { children = cs; next_deet_id = pos 0; events = [] }

-- The second of three children is dead.
abbrev three : World
three = world_of (child_at 100 0 running ∷ child_at 101 1 dead ∷ child_at 102 2 stopped ∷ [])

three_dead : count_in_state dead three.children ≤ 1
unfolding count_in_state
three_dead = omega arith

spawn_child-IsNumbered_example :
    IsFresh (spawn_child three 103 true []).1.deet_id (alive three.children)
    × IsNumbered 0 (spawn_child three 103 true []).0.children
spawn_child-IsNumbered_example =
    spawn_child-IsNumbered three 103 true [] (refl, (refl, (refl, tt))) three_dead

abbrev gap : World
gap = world_of (child_at 100 0 running ∷ child_at 102 2 stopped ∷ [])

gap_dead : count_in_state dead gap.children ≡ 0
unfolding count_in_state
gap_dead = refl

spawn_child_duplicate_example : 2 ≤ count_id 2 (spawn_child gap 103 true []).0.children
spawn_child_duplicate_example = spawn_child_duplicate gap 103 true [] gap_dead (omega arith)

found_second : find_from (λ c. c.pid == 102) gap.children 0 ≡ some 1
unfolding find_from
found_second = refl

abbrev exited_status : WaitStatus
exited_status = record {
  word = 256;
  term_sig = 0;
  if_exited = true;
  if_stopped = false;
  if_continued = false;
}

abbrev killed_status : WaitStatus
killed_status = record {
  word = 9;
  term_sig = 9;
  if_exited = false;
  if_stopped = false;
  if_continued = false;
}

handle_report_lem_example :
    (handle_report 1 gap 0 exited_status).children
    ≡ set gap.children 0 (reported exited_status (child_at 100 0 running))
handle_report_lem_example = handle_report_lem 1 gap 0 (child_at 100 0 running) exited_status refl

abbrev dying : World
dying = world_of (child_at 100 0 killed ∷ child_at 101 1 killed ∷ [])

dying_killed : count_in_state killed dying.children ≡ 2
unfolding count_in_state
dying_killed = refl

abbrev tabbed : List ℕ
tabbed = b'a' ∷ b'\t' ∷ b'b' ∷ b'\n' ∷ b'\t' ∷ []

abbrev stop_nine : Input
stop_nine = command stop ((b'9' ∷ []) ∷ [])

stop_nine_refused : (turn (λ s. 0) (λ p. true) 8 three stop_nine).complaint ≡ some (named stop)
unfolding turn command_turn str_to_int stop_child_process get_child_by_deet_id_ig digits_from
stop_nine_refused = refl

turn-complaint_example :
    ((turn (λ s. 0) (λ p. true) 8 three stop_nine).world ≡ three)
    × ((turn (λ s. 0) (λ p. true) 8 three stop_nine).next ≡ again)
turn-complaint_example =
    turn-complaint (λ s. 0) (λ p. true) 8 three stop_nine (named stop) stop_nine_refused

abbrev two : World
two = world_of (record (child_at 100 0 dead) { exit_status = pos 0 } ∷ child_at 101 1 running ∷ [])

-- The running child exits in the first `sigsuspend` of a wait for it to stop; the test is made again.
abbrev exits : List Occurrence
exits =
    advance
    ∷ advance
    ∷ arrive ((101, exited_status) ∷ [])
    ∷ advance
    ∷ advance
    ∷ arrive []
    ∷ advance
    ∷ []

exits-BringsEnding : All (BringsEnding 101) exits
exits-BringsEnding = (tt, (tt, ((inr (refl, refl), tt), (tt, (tt, (tt, (tt, tt)))))))

second_place : get_child_by_deet_id two 1 ≡ some 1
unfolding get_child_by_deet_id find_from
second_place = refl

running_not_stopped : is_state running stopped ≡ false
unfolding is_state
running_not_stopped = refl

dead_not_stopped : is_state dead stopped ≡ false
unfolding is_state
dead_not_stopped = refl

suspend_until_state_blocks_example : (suspend_until_state 1 two 1 stopped exits).1 ≢ returned
suspend_until_state_blocks_example =
    suspend_until_state_blocks 1 two 1 1 (child_at 101 1 running) stopped exits second_place refl
      running_not_stopped dead_not_stopped exits-BringsEnding

second_process : get_child two 101 ≡ some 1
unfolding get_child find_from
second_process = refl

wait_loop_exit_example :
    (wait_loop 1 two 1 dead tested (arrive ((101, exited_status) ∷ []) ∷ arrive [] ∷ advances 5)).1
    ≡ suspended
wait_loop_exit_example =
    wait_loop_exit 1 two 1 (child_at 101 1 running) exited_status tested 4 refl second_process refl
      refl refl

-- `Stop 12`.
abbrev stop_word : List ℕ
stop_word = b'S' ∷ b't' ∷ b'o' ∷ b'p' ∷ []

abbrev twelve : List ℕ
twelve = b'1' ∷ b'2' ∷ []

stop_word-IsWord : IsWord stop_word
stop_word-IsWord = (
  omega arith,
  (
    (omega arith, omega arith, omega arith),
    (
      (omega arith, omega arith, omega arith),
      ((omega arith, omega arith, omega arith), ((omega arith, omega arith, omega arith), tt)),
    ),
  ),
)

twelve-IsWord : IsWord twelve
twelve-IsWord = (
  omega arith,
  ((omega arith, omega arith, omega arith), ((omega arith, omega arith, omega arith), tt)),
)

get_input-tail_of_example :
    get_input (pos 8) (b'S' ∷ b't' ∷ b'o' ∷ b'p' ∷ b' ' ∷ b'1' ∷ b'2' ∷ b'\n' ∷ []) []
    ≡ read (command stop (twelve ∷ []))
unfolding find_command
get_input-tail_of_example =
    get_input-tail_of stop stop_word (twelve ∷ []) refl (omega arith) stop_word-IsWord
      (twelve-IsWord, tt) (omega arith)

-- With other bytes behind the copy of the line, they end up in the last argument.
stop_beyond :
    get_input (pos 8) (b'S' ∷ b't' ∷ b'o' ∷ b'p' ∷ b' ' ∷ b'1' ∷ b'2' ∷ b'\n' ∷ []) (b'x' ∷ [])
    ≡ read (command stop ((b'1' ∷ b'2' ∷ b'\n' ∷ b'x' ∷ []) ∷ []))
unfolding get_input replace_tabs_with_space trim_string
stop_beyond = refl
