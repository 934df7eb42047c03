-- ===== src/Deet/Dispatch/Complaints.antt =====
-- What a command line that is answered with `?` does (hw4/src/main.c).
use cse320_fall.Base.{
  ℕ, ◌≡◌, refl, Bool, true, false, Option, none, some, List, [], ◌∷◌, ◌==◌, Option-cases, inl, inr,
  arith, if◌then◌else◌, ◌-◌, ◌^◌,
}
use cse320_fall.Base.Int.{ℤ, pos, negsuc}
use cse320_fall.Deet.Children.{World, Child, get_child_by_deet_id_ig}
use cse320_fall.Deet.Commands.{with_traced}
use cse320_fall.Deet.Commands.Effects as Effects
use cse320_fall.Deet.Commands.Effects.{with_child-failure, run-failure}
use cse320_fall.Deet.Text.{str_to_int}
use cse320_fall.Deet.Dispatch.{
  Kind, help, quit, show, run, stop, cont, release, wait, kill, peek, poke, bt, Input, command,
  empty_line, end_of_input, unknown, Complaint, named, invalid_process_id, again, Turn, refused,
  reported, number_or, with_id, contains_state, wait_turn, hex_str_to_long, peek_at, peek_turn,
  poke_turn, backtrace, bt_turn, command_turn, turn,
}

-- Where there is a complaint, nothing has changed, and the next command is read.
abbrev Unharmed : World → Turn → Type 0
Unharmed w t = elim t.complaint [ none ↦ Unit | some c ↦ (t.world ≡ w) × (t.next ≡ again) ]

complained :
    (o : Option Complaint) (c : Complaint) (P : Type 0)
    → o ≡ some c
    → elim o as (λ _. Type 0) [ none ↦ Unit | some c' ↦ P ]
    → P
complained none c P e u = cc
complained (some c') c P e u = u

number_or-Unharmed :
    (w : World) (bad : Turn) (o : Option ℕ) (f : ℕ → Turn)
    → Unharmed w bad
    → ((n : ℕ) → Unharmed w (f n))
    → Unharmed w (number_or bad o f)
number_or-Unharmed w bad none f u k = u
number_or-Unharmed w bad (some n) f u k = k n

with_id-Unharmed :
    (w : World) (kd : Kind) (c : Complaint) (args : List (List ℕ)) (f : ℕ → Turn)
    → ((n : ℕ) → Unharmed w (f n))
    → Unharmed w (with_id w kd c args f)
with_id-Unharmed w kd c [] f k = (refl, refl)
with_id-Unharmed w kd c (arg ∷ args) f k =
    number_or-Unharmed w (refused w c) (str_to_int arg) f (refl, refl) k

reported-Unharmed :
    (w : World) (kd : Kind) (r : World × ℤ)
    → ((n : ℕ) → r.1 ≡ negsuc n → r.0 ≡ w)
    → Unharmed w (reported kd r)
reported-Unharmed w kd (w', pos n) h = tt
reported-Unharmed w kd (w', negsuc n) h = (h n refl, refl)

either_Unharmed :
    (w : World) (b : Bool) (x y : Turn)
    → Unharmed w x
    → Unharmed w y
    → Unharmed w (if b then x else y)
either_Unharmed w true x y u v = u
either_Unharmed w false x y u v = v

wait_turn-Unharmed : (w : World) (args : List (List ℕ)) → Unharmed w (wait_turn w args)
unfolding wait_turn
wait_turn-Unharmed w [] = (refl, refl)
wait_turn-Unharmed w (id ∷ []) = number_or-Unharmed w _ (str_to_int id) _ (refl, refl) λ n. tt
wait_turn-Unharmed w (id ∷ name ∷ args) =
    number_or-Unharmed w _ (str_to_int id) _ (refl, refl)
      λ n. (elim (Option-cases (contains_state name)) [
        | inl e ↦ rw e (refl, refl)
        | inr (s, e) ↦ rw e tt
      ])

-- A command that only reads the child.
reads-Unharmed :
    (w : World) (deet_id : ℕ) (f : Child → ℤ) (n : ℕ)
    → (with_traced w deet_id λ c. (w, f c)).1 ≡ negsuc n
    → (with_traced w deet_id λ c. (w, f c)).0 ≡ w
reads-Unharmed w deet_id f n =
    with_child-failure w (get_child_by_deet_id_ig w deet_id) _ n λ i c e. ground arith

module _ (strtoul : List ℕ → ℕ) (has_registers : ℕ → Bool) where
  peek_at-Unharmed : (w : World) (id address : List ℕ) → Unharmed w (peek_at strtoul w id address)
  peek_at-Unharmed w id address =
      number_or-Unharmed w _ (str_to_int id) _ (refl, refl)
        λ deet_id.
          either_Unharmed w (hex_str_to_long strtoul address == 0) _ _ (refl, refl)
            (reported-Unharmed w peek _ (reads-Unharmed w deet_id (λ c. pos 0)))

  peek_turn-Unharmed : (w : World) (args : List (List ℕ)) → Unharmed w (peek_turn strtoul w args)
  unfolding peek_turn
  peek_turn-Unharmed w [] = (refl, refl)
  peek_turn-Unharmed w (id ∷ []) = (refl, refl)
  peek_turn-Unharmed w (id ∷ address ∷ []) = peek_at-Unharmed w id address
  peek_turn-Unharmed w (id ∷ address ∷ limit ∷ []) =
      number_or-Unharmed w _ (str_to_int limit) _ (refl, refl) λ n. peek_at-Unharmed w id address
  peek_turn-Unharmed w (id ∷ address ∷ limit ∷ x ∷ args) = (refl, refl)

  poke_turn-Unharmed : (w : World) (args : List (List ℕ)) → Unharmed w (poke_turn strtoul w args)
  unfolding poke_turn Effects.run
  poke_turn-Unharmed w [] = (refl, refl)
  poke_turn-Unharmed w (id ∷ []) = (refl, refl)
  poke_turn-Unharmed w (id ∷ address ∷ []) = (refl, refl)
  poke_turn-Unharmed w (id ∷ address ∷ value ∷ []) =
      number_or-Unharmed w _ (str_to_int id) _ (refl, refl)
        λ deet_id.
          either_Unharmed w (hex_str_to_long strtoul value == 2 ^ 64 - 1) _ _ (refl, refl)
            (either_Unharmed w (hex_str_to_long strtoul address == 0) _ _ (refl, refl)
              (reported-Unharmed w poke _ (
                run-failure w (
                  Effects.poke_word deet_id (hex_str_to_long strtoul address)
                    (hex_str_to_long strtoul value)))))
  poke_turn-Unharmed w (id ∷ address ∷ value ∷ x ∷ args) = (refl, refl)

  backtrace-Unharmed :
      (w : World) (deet_id : ℕ) → Unharmed w (backtrace strtoul has_registers w deet_id)
  backtrace-Unharmed w deet_id =
      reported-Unharmed w bt _
        (reads-Unharmed w deet_id λ c. if has_registers c.pid then pos 0 else negsuc 0)

  bt_turn-Unharmed :
      (w : World) (args : List (List ℕ)) → Unharmed w (bt_turn strtoul has_registers w args)
  unfolding bt_turn
  bt_turn-Unharmed w [] = (refl, refl)
  bt_turn-Unharmed w (id ∷ []) =
      number_or-Unharmed w _ (str_to_int id) _ (refl, refl) λ n. backtrace-Unharmed w n
  bt_turn-Unharmed w (id ∷ limit ∷ []) =
      number_or-Unharmed w _ (str_to_int id) _ (refl, refl)
        λ n. number_or-Unharmed w _ (str_to_int limit) _ (refl, refl) λ m. backtrace-Unharmed w n
  bt_turn-Unharmed w (id ∷ limit ∷ x ∷ args) = (refl, refl)

  command_turn-Unharmed :
      (pid : ℕ) (w : World) (k : Kind) (args : List (List ℕ))
      → Unharmed w (command_turn strtoul has_registers pid w k args)
  unfolding command_turn Effects.run
  command_turn-Unharmed pid w help args = tt
  command_turn-Unharmed pid w quit [] = tt
  command_turn-Unharmed pid w quit (arg ∷ args) = (refl, refl)
  command_turn-Unharmed pid w show [] = tt
  command_turn-Unharmed pid w show (arg ∷ args) =
      with_id-Unharmed w show (named show) (arg ∷ args) _ λ n. tt
  command_turn-Unharmed pid w run [] = (refl, refl)
  command_turn-Unharmed pid w run (arg ∷ args) = tt
  command_turn-Unharmed pid w stop args =
      with_id-Unharmed w stop (named stop) args _
        λ n. reported-Unharmed w stop _ (run-failure w (Effects.stop n))
  command_turn-Unharmed pid w cont args =
      with_id-Unharmed w cont (named cont) args _
        λ n. reported-Unharmed w cont _ (run-failure w (Effects.cont n))
  command_turn-Unharmed pid w release args =
      with_id-Unharmed w release (named release) args _
        λ n. reported-Unharmed w release _ (run-failure w (Effects.release n))
  command_turn-Unharmed pid w wait args = wait_turn-Unharmed w args
  command_turn-Unharmed pid w kill args =
      with_id-Unharmed w kill invalid_process_id args _
        λ n. reported-Unharmed w kill _ (run-failure w (Effects.kill n))
  command_turn-Unharmed pid w peek args = peek_turn-Unharmed w args
  command_turn-Unharmed pid w poke args = poke_turn-Unharmed w args
  command_turn-Unharmed pid w bt args = bt_turn-Unharmed w args

  turn-Unharmed :
      (pid : ℕ) (w : World) (input : Input) → Unharmed w (turn strtoul has_registers pid w input)
  unfolding turn
  turn-Unharmed pid w (command k args) = command_turn-Unharmed pid w k args
  turn-Unharmed pid w empty_line = tt
  turn-Unharmed pid w end_of_input = tt
  turn-Unharmed pid w (unknown none) = (refl, refl)
  turn-Unharmed pid w (unknown (some arg)) = (refl, refl)

  -- Whatever the input, where the loop complains, with any text, no child, signal or log line has
  -- changed, and the loop goes on with the next command.
  pub turn-complaint :
      (pid : ℕ) (w : World) (input : Input) (c : Complaint)
      → (turn strtoul has_registers pid w input).complaint ≡ some c
      → ((turn strtoul has_registers pid w input).world ≡ w)
        × ((turn strtoul has_registers pid w input).next ≡ again)
  turn-complaint pid w input c e =
      complained (turn strtoul has_registers pid w input).complaint c _ e
        (turn-Unharmed pid w input)
