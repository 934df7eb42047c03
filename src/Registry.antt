-- ===== src/Registry.antt =====
-- The client registry, hw5/src/client_registry.c. A registry is a linked list of descriptors with a
-- cached count and a semaphore; the body of each function runs under the
-- registry's mutex, so it is one step; `sem_wait`, which runs outside of it, is a step of its own.
-- The nodes are private to the list, so the list of their `fd` fields stands for them.
pub mod Membership
pub mod Waiting
use cse320_fall.Base.{
  ℕ, zero, suc, ◌+◌, ◌-◌, Bool, true, false, Option, none, some, List, [], ◌∷◌, ◌==◌, if◌then◌else◌,
}
use cse320_fall.Base.Int.{ℤ, pos, negsuc, ◌+ℤ◌, ◌-ℤ◌}
use mathlib.Core.Option

-- `CLIENT_REGISTRY`. `clients` lists the `fd` fields from `head` on; a descriptor is a number, as
-- `accept` returns it. `sem` is the semaphore's value.
pub record Registry : Type 0 where
  pub total_clients : ℤ
  pub sem : ℕ
  pub clients : List ℕ

pub data Errno : Type 0 where
  einval enomem : Errno

-- What a call leaves: its result, the `errno` that it sets, and the registry.
pub record Outcome : Type 0 where
  pub ret : ℤ
  pub errno : Option Errno
  pub registry : Option Registry

-- The flags say whether `malloc`, `pthread_mutex_init` and `sem_init` succeed.
pub creg_init : (allocated mutex_made sem_made : Bool) → Option Registry
creg_init false mutex_made sem_made = none
creg_init true false sem_made = none
creg_init true true false = none
creg_init true true true = some (record { total_clients = pos 0; sem = 0; clients = [] })

-- The walk of `creg_register`: it stops at the last node, whose `fd` it does not compare.
-- `none` is the early return for a descriptor that it has seen.
unfoldable pub add_last : ℕ → List ℕ → Option (List ℕ)
add_last fd [] = some (fd ∷ [])
add_last fd (c ∷ []) = some (c ∷ fd ∷ [])
add_last fd (c ∷ d ∷ rest) =
    let walked = add_last fd (d ∷ rest) in if c == fd then none else Option.map (λ l. c ∷ l) walked

abbrev pub refused : Option Errno → Option Registry → Outcome
refused e r = record { ret = negsuc 0; errno = e; registry = r }

-- The flag says whether `malloc` succeeds.
unfoldable pub creg_register : Bool → Option Registry → ℕ → Outcome
unfolding add_last
creg_register allocated none fd = refused (some einval) none
creg_register false (some r) fd = refused (some enomem) (some r)
creg_register true (some r) fd = elim (add_last fd r.clients) [
  | none ↦ refused none (some r)
  | some l ↦ record {
    ret = pos 0;
    errno = none;
    registry =
        some (record { total_clients = r.total_clients +ℤ pos 1; sem = r.sem + 1; clients = l });
  }
]

-- The walk of `creg_unregister`: the list without the first node that holds `fd`.
unfoldable pub unlink_first : ℕ → List ℕ → Option (List ℕ)
unlink_first fd [] = none
unlink_first fd (c ∷ rest) =
    let walked = unlink_first fd rest in
    if c == fd then some rest else Option.map (λ l. c ∷ l) walked

unfoldable pub creg_unregister : Option Registry → ℕ → Outcome
unfolding unlink_first
creg_unregister none fd = refused (some einval) none
creg_unregister (some r) fd = elim (unlink_first fd r.clients) [
  | none ↦ refused (some einval) (some r)
  | some l ↦ record {
    ret = pos 0;
    errno = none;
    registry =
        some (record { total_clients = r.total_clients -ℤ pos 1; sem = r.sem + 1; clients = l });
  }
]

-- `sem_wait` in the loop of `creg_wait_for_empty`: `none` while it blocks.
unfoldable pub wait_sem : Registry → Option Registry
wait_sem r = elim r.sem [ zero ↦ none | suc s ↦ some (record r { sem = s }) ]

-- The rest of the round, under the mutex: whether `creg_wait_for_empty` returns.
unfoldable pub check_empty : Registry → Bool
check_empty r = elim r.clients [ [] ↦ true | _ ↦ false ]

-- The registry that `creg_fini` leaves, `none` once it is freed.
pub creg_fini : Option Registry → Option Errno × Option Registry
creg_fini none = (some einval, none)
creg_fini (some r) = elim r.clients [ [] ↦ (none, none) | _ ↦ (none, some r) ]

-- The loop of `creg_shutdown_all`: the descriptors shut down, in order, and the count after it.
unfoldable pub shutdown_each : List ℕ → ℤ → List ℕ × ℤ
shutdown_each [] total = ([], total)
shutdown_each (c ∷ rest) total =
    let (shut, left) = shutdown_each rest (total -ℤ pos 1) in (c ∷ shut, left)

-- `creg_shutdown_all` of a registry: the descriptors that it shuts down, and what it leaves.
unfoldable pub shutdown_all : Registry → List ℕ × Registry
unfolding shutdown_each
shutdown_all r =
    let (shut, left) = shutdown_each r.clients r.total_clients in
    (shut, record r { total_clients = left; sem = r.sem + 1 })

-- With the check for a null registry.
pub creg_shutdown_all : Option Registry → Option Errno × List ℕ × Option Registry
creg_shutdown_all none = (some einval, [], none)
creg_shutdown_all (some r) = let (shut, left) = shutdown_all r in (none, shut, some left)
