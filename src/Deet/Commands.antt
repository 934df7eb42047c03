-- ===== src/Deet/Commands.antt =====
-- The commands on a child, hw4/src/child_processes.c, by its `deet_id`. Blocking and unblocking of
-- signals and the flag `can_print` do not change the table and are left out; `ptrace` reads are a
-- parameter.
pub mod Effects
use cse320_fall.Base.{
  ℕ, zero, suc, ◌+◌, ◌%◌, ◌^◌, Bool, true, false, ◌&&◌, not, Option, none, some, List, [], ◌∷◌,
  ◌++◌, ltb, ◌==◌, if◌then◌else◌, get_elem?,
}
use cse320_fall.Base.Int.{ℤ, pos, negsuc}
use cse320_fall.Deet.Children.{
  Pstate, stopped, stopping, continuing, running, dead, is_state, Child, Event, send, sigcont,
  sigchld, resume, poke, World, note, summary, stdout, get_child_by_deet_id,
  get_child_by_deet_id_ig, set_child_status, child_summary, spawn_child, kill_child, stop_child,
  release_child,
}

-- The parent's side: `fork` has returned `pid`. The line shows the child that was added.
unfoldable pub run_child_process : World → (pid : ℕ) → List (List ℕ) → World × ℕ
run_child_process w pid args =
    let (w', child) = spawn_child w pid true args in (note w' (summary stdout child), pid)

unfoldable pub show_child_process : World → (deet_id filenum : ℕ) → World
show_child_process w deet_id filenum = elim (get_child_by_deet_id w deet_id) [
  | none ↦ w
  | some i ↦ child_summary w i filenum
]

abbrev pub summaries : (filenum : ℕ) → List Child → List Event
summaries filenum [] = []
summaries filenum (c ∷ cs) = summary filenum c ∷ summaries filenum cs

unfoldable pub show_all_child_processes : World → (filenum : ℕ) → World
show_all_child_processes w filenum = record w { events = w.events ++ summaries filenum w.children }

abbrev pub failed : World → World × ℤ
failed w = (w, negsuc 0)

-- The child at a place that a lookup has returned.
abbrev pub with_child : World → Option ℕ → (ℕ → Child → World × ℤ) → World × ℤ
with_child w none use_child = failed w
with_child w (some i) use_child = elim (get_elem? w.children i) [
  | none ↦ failed w
  | some c ↦ use_child i c
]

unfoldable pub continue_child_process : World → (deet_id filenum : ℕ) → World × ℤ
continue_child_process w deet_id filenum = with_child w (get_child_by_deet_id w deet_id) λ i c.
    if not (is_state c.status stopped)
    then failed w
    else if c.trace
    then (
      note (child_summary (set_child_status w (some i) running (negsuc 0)).0 i filenum)
          (resume c.pid),
      pos 0,
    )
    else (
      note (child_summary (set_child_status w (some i) continuing (negsuc 0)).0 i filenum)
          (send c.pid sigcont),
      pos 0,
    )

unfoldable pub kill_child_process : World → (deet_id : ℕ) → World × ℤ
kill_child_process w deet_id =
    with_child w (get_child_by_deet_id w deet_id) λ i c. ((kill_child w c.pid).0, pos 0)

unfoldable pub stop_child_process : World → (deet_id : ℕ) → World × ℤ
stop_child_process w deet_id = with_child w (get_child_by_deet_id_ig w deet_id) λ i c.
    if is_state c.status stopped
    then failed w
    else if is_state c.status stopping
    then failed w
    else if is_state c.status dead
    then failed w
    else ((stop_child w c.pid).0, pos 0)

-- The shutdown flag, and the signal that `kill_all_child_processes` sends to the program itself.
unfoldable pub kill_all_child_processes : World → (self : ℕ) → World × ℕ
kill_all_child_processes w self = (note w (send self sigchld), 1)

-- The guards that `peek_in_process`, `poke_in_process`, `backtrace_child_process` and
-- `release_child_process` share.
abbrev pub with_traced : World → (deet_id : ℕ) → (Child → World × ℤ) → World × ℤ
with_traced w deet_id use_child = with_child w (get_child_by_deet_id_ig w deet_id) λ i c.
    if is_state c.status dead then failed w else if not c.trace then failed w else use_child c

unfoldable pub release_child_process : World → (deet_id : ℕ) → World × ℤ
release_child_process w deet_id = with_traced w deet_id λ c.
    let (w', released) = release_child w c.pid in
    (w', elim released [ none ↦ negsuc 0 | some pid ↦ pos pid ])

unfoldable pub poke_in_process : World → (deet_id addr value : ℕ) → World × ℤ
poke_in_process w deet_id addr value =
    with_traced w deet_id λ c. (note w (poke c.pid addr value), pos 0)

-- `peek_data pid addr` is what `ptrace(PTRACE_PEEKDATA, …)` returns.
module _ (peek_data : ℕ → ℕ → ℕ) where
  -- The address and the word on each line that `peek_in_process` prints.
  unfoldable pub peek_lines : (pid addr count : ℕ) → List (ℕ × ℕ)
  peek_lines pid addr zero = []
  peek_lines pid addr (suc n) = (addr, peek_data pid addr) ∷ peek_lines pid ((addr + 8) % 2 ^ 64) n

  -- The frame pointer and the return address on each line of `backtrace_child_process`.
  unfoldable pub backtrace_lines : (pid frame ret_addr limit : ℕ) → List (ℕ × ℕ)
  backtrace_lines pid frame ret_addr zero = []
  backtrace_lines pid frame ret_addr (suc n) =
      let rest =
        backtrace_lines pid (peek_data pid frame) (peek_data pid ((frame + 8) % 2 ^ 64)) n in
      if ltb 1 frame then (frame, ret_addr) ∷ rest else []
