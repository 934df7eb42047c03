-- ===== src/Deet/Children.antt =====
-- The table of children, hw4/src/track_children.c. The ring of `child_t` nodes round `sentinel` is
-- the list of its nodes from `sentinel.next` on, and a pointer to a node is its place in that list.
-- Logging, output, signals and `ptrace` calls are events, the latest one last. `malloc` succeeds:
-- where it fails, the program exits.
pub mod Ordering
pub mod Numbering
pub mod Status
use cse320_fall.Base.{
  ℕ, zero, suc, ◌+◌, ◌-◌, ◌≡◌, Bool, true, false, ◌&&◌, not, Option, none, some, List, [], ◌∷◌,
  ◌++◌, ltb, ◌==◌, if◌then◌else◌, get_elem?, set, length,
}
use cse320_fall.Base.Int.{ℤ, pos, negsuc, ◌-ℤ◌}

-- `PSTATE` of hw4/include/deet.h.
pub data Pstate : Type 0 where
  pstate_none running stopping stopped continuing killed dead : Pstate

unfoldable pub code : Pstate → ℕ
code pstate_none = 0
code running = 1
code stopping = 2
code stopped = 3
code continuing = 4
code killed = 5
code dead = 6

unfoldable pub is_state : Pstate → Pstate → Bool
unfolding code
is_state s t = code s == code t

pub record Child : Type 0 where
  pub pid : ℕ
  pub deet_id : ℕ
  pub status : Pstate
  pub trace : Bool
  pub exit_status : ℤ
  pub args : List (List ℕ)

pub data Signal : Type 0 where
  sigkill sigstop sigcont sigchld sigint : Signal

pub data Event : Type 0 where
  state_change : (pid : ℕ) → (old new : Pstate) → (exit_status : ℤ) → Event
  summary : (filenum : ℕ) → Child → Event
  send : (pid : ℕ) → Signal → Event
  received : Signal → Event
  detach : (pid : ℕ) → Event
  resume : (pid : ℕ) → Event
  poke : (pid addr value : ℕ) → Event
  shutdown_done : Event

pub record World : Type 0 where
  pub children : List Child
  pub next_deet_id : ℤ
  pub events : List Event

abbrev pub note : World → Event → World
note w e = record w { events = w.events ++ (e ∷ []) }

abbrev pub stdout : ℕ
stdout = 1

abbrev pub stderr : ℕ
stderr = 2

-- The first place whose child passes a test: the loops of `get_child`, `get_child_by_deet_id` and
-- `get_child_by_deet_id_ig`.
unfoldable pub find_from : (Child → Bool) → List Child → ℕ → Option ℕ
find_from test [] i = none
find_from test (c ∷ cs) i = let rest = find_from test cs (suc i) in if test c then some i else rest

unfoldable pub get_child : World → (pid : ℕ) → Option ℕ
unfolding find_from
get_child w pid = find_from (λ c. c.pid == pid) w.children 0

abbrev is_unset : ℤ → Bool
is_unset (pos n) = false
is_unset (negsuc n) = n == 0

unfoldable pub get_child_by_deet_id : World → (deet_id : ℕ) → Option ℕ
unfolding find_from
get_child_by_deet_id w deet_id =
    find_from (λ c. c.deet_id == deet_id && is_unset c.exit_status) w.children 0

unfoldable pub get_child_by_deet_id_ig : World → (deet_id : ℕ) → Option ℕ
unfolding find_from
get_child_by_deet_id_ig w deet_id = find_from (λ c. c.deet_id == deet_id) w.children 0

-- The child at a place, after a change.
abbrev pub put_child : World → ℕ → Child → World
put_child w i c = record w { children = set w.children i c }

-- `none` is NULL, for which the result is -1.
unfoldable pub set_child_status : World → Option ℕ → Pstate → ℤ → World × ℤ
set_child_status w none status exit_status = (w, negsuc 0)
set_child_status w (some i) status exit_status = elim (get_elem? w.children i) [
  | none ↦ (w, negsuc 0)
  | some c ↦ (
    note (put_child w i (record c { status = status; exit_status = exit_status }))
        (state_change c.pid c.status status exit_status),
    pos 0,
  )
]

unfoldable pub get_child_status : World → (pid : ℕ) → Option Pstate
unfolding get_child
get_child_status w pid = elim (get_child w pid) [
  | none ↦ none
  | some i ↦ elim (get_elem? w.children i) [ none ↦ none | some c ↦ some c.status ]
]

unfoldable pub set_child_status_by_pid : World → (pid : ℕ) → Pstate → World × ℤ
unfolding get_child
set_child_status_by_pid w pid status = elim (get_child w pid) [
  | none ↦ (w, negsuc 0)
  | some i ↦ elim (get_elem? w.children i) [
    | none ↦ (w, negsuc 0)
    | some c ↦ (put_child w i (record c { status = status }), pos 0)
  ]
]

-- `child_summary` writes a line for the child as it is now.
unfoldable pub child_summary : World → ℕ → (filenum : ℕ) → World
child_summary w i filenum = elim (get_elem? w.children i) [
  | none ↦ w
  | some c ↦ note w (summary filenum c)
]

unfoldable pub count_in_state : Pstate → List Child → ℕ
unfolding is_state
count_in_state state [] = 0
count_in_state state (c ∷ cs) =
    let rest = count_in_state state cs in if is_state c.status state then suc rest else rest

-- The walk of `find_next_deet_id` over the nodes from the place `i` on: those that stay, the changes
-- of state that it logs, and the identifier of the first child freed. A node's `next` is read after
-- the node is freed; it is taken to be what it was.
pub record Walk : Type 0 where
  pub kept : List Child
  pub logged : List Event
  pub freed : Option ℕ

unfoldable pub free_dead : List Child → Walk
unfolding is_state
free_dead [] = record { kept = []; logged = []; freed = none }
free_dead (c ∷ cs) =
    let rest = free_dead cs in
    if is_state c.status dead
    then record {
      kept = rest.kept;
      logged = state_change c.pid dead pstate_none (negsuc 0) ∷ rest.logged;
      freed = some c.deet_id;
    }
    else record rest { kept = c ∷ rest.kept }

unfoldable pub find_next_deet_id : World → World × ℕ
unfolding free_dead
find_next_deet_id w =
    let walk = free_dead w.children in
    let n = length w.children in
    let w' = record w { children = walk.kept; events = w.events ++ walk.logged } in
    elim walk.freed [ some id ↦ (w', id) | none ↦ (record w' { next_deet_id = pos (suc n) }, n) ]

-- The loop of `connect_child`: `none` if it ends at the sentinel.
unfoldable pub connect_behind : Child → List Child → Option (List Child)
connect_behind child [] = none
connect_behind child (c ∷ []) = if ltb c.deet_id child.deet_id then some (c ∷ child ∷ []) else none
connect_behind child (c ∷ d ∷ cs) =
    let rest = connect_behind child (d ∷ cs) in
    if ltb c.deet_id child.deet_id && ltb child.deet_id d.deet_id
    then some (c ∷ child ∷ d ∷ cs)
    else elim rest [ none ↦ none | some l ↦ some (c ∷ l) ]

unfoldable pub connect_child : Child → List Child → List Child
unfolding connect_behind
connect_child child cs = elim (connect_behind child cs) [ none ↦ child ∷ cs | some l ↦ l ]

unfoldable pub spawn_child : World → (pid : ℕ) → (trace : Bool) → List (List ℕ) → World × Child
unfolding find_next_deet_id connect_child
spawn_child w pid trace args =
    let (w', id) = find_next_deet_id w in
    let child : Child = record {
      pid = pid;
      deet_id = id;
      status = running;
      trace = trace;
      exit_status = negsuc 0;
      args = args;
    } in
    (
      note (record w' { children = connect_child child w'.children })
          (state_change pid pstate_none running (pos 0)),
      child,
    )

-- The three calls on the child of a process: the pid, or `none` for -1.
unfoldable pub kill_child : World → (pid : ℕ) → World × Option ℕ
kill_child w pid = elim (get_child w pid) [
  | none ↦ (w, none)
  | some i ↦
      (let w1 = (set_child_status w (some i) killed (negsuc 0)).0 in
        (note (child_summary w1 i stderr) (send pid sigkill), some pid))
]

unfoldable pub stop_child : World → (pid : ℕ) → World × Option ℕ
stop_child w pid = elim (get_child w pid) [
  | none ↦ (w, none)
  | some i ↦
      (let w1 = (set_child_status w (some i) stopping (negsuc 0)).0 in
        (note (child_summary w1 i stderr) (send pid sigstop), some pid))
]

abbrev pub untraced : World → ℕ → World
untraced w i = elim (get_elem? w.children i) [
  | none ↦ w
  | some c ↦ put_child w i (record c { trace = false })
]

unfoldable pub release_child : World → (pid : ℕ) → World × Option ℕ
release_child w pid = elim (get_child w pid) [
  | none ↦ (w, none)
  | some i ↦
      (let w1 = (set_child_status (untraced w i) (some i) running (negsuc 0)).0 in
        (note (child_summary w1 i stderr) (detach pid), some pid))
]

-- The children that stay and the number removed.
unfoldable pub remove_all_dead_children : List Child → List Child × ℕ
unfolding is_state
remove_all_dead_children [] = ([], 0)
remove_all_dead_children (c ∷ cs) =
    let (kept, count) = remove_all_dead_children cs in
    if is_state c.status dead then (kept, suc count) else (c ∷ kept, count)

-- The lines of `child_summaries_in_state`.
unfoldable pub summaries_in_state : Pstate → (filenum : ℕ) → List Child → List Event
unfolding is_state
summaries_in_state state filenum [] = []
summaries_in_state state filenum (c ∷ cs) =
    let rest = summaries_in_state state filenum cs in
    if is_state c.status state then summary filenum c ∷ rest else rest
