-- ===== src/Examples/Registry.antt =====
-- The client registry of hw5/src/client_registry.c on a few descriptors.
use cse320_fall.Base.{ℕ, ◌≡◌, refl, true, none, some, [], ◌∷◌, arith, get_elem?, ◌⊎◌}
use cse320_fall.Base.Int.{pos, negsuc}
use cse320_fall.Registry.{Registry, creg_unregister, shutdown_all, wait_sem, check_empty}
use cse320_fall.Registry.Membership.{
  register, unregister, run, IsCounted, succeeded, creg_unregister_lem, run-IsCounted,
  creg_unregister-shutdown_all,
}
use cse320_fall.Registry.Waiting.{
  Scene, waiting, woken, returned, Reach, here, next, leave, wake, check, Reach-wait_sem,
}

abbrev two_clients : Registry
two_clients = record { total_clients = pos 2; sem = 2; clients = 4 ∷ 5 ∷ [] }

abbrev one_client : Registry
one_client = record { total_clients = pos 1; sem = 0; clients = 5 ∷ [] }

run-IsCounted_example :
    IsCounted
      (run two_clients (register true 6 ∷ unregister 4 ∷ register true 6 ∷ unregister 9 ∷ []))
run-IsCounted_example =
    run-IsCounted (register true 6 ∷ unregister 4 ∷ register true 6 ∷ unregister 9 ∷ []) two_clients
      refl

creg_unregister-shutdown_all_example :
    (shutdown_all two_clients
      ≡ (4 ∷ 5 ∷ [], record { total_clients = pos 0; sem = 3; clients = 4 ∷ 5 ∷ [] }))
    × (creg_unregister (some (shutdown_all two_clients).1) 4
        ≡ succeeded (record { total_clients = negsuc 0; sem = 4; clients = 5 ∷ [] }))
creg_unregister-shutdown_all_example = creg_unregister-shutdown_all two_clients 4 refl refl

-- Two threads wait for the last client to leave.
abbrev before_leaving : Scene
before_leaving = record { registry = one_client; phases = waiting ∷ waiting ∷ [] }

abbrev emptied : Registry
emptied = record { total_clients = pos 0; sem = 1; clients = [] }

abbrev after_leaving : Scene
after_leaving = record { registry = emptied; phases = waiting ∷ waiting ∷ [] }

abbrev drained : Registry
drained = record { total_clients = pos 0; sem = 0; clients = [] }

one_client_leaves : creg_unregister (some one_client) 5 ≡ succeeded emptied
one_client_leaves = creg_unregister_lem one_client 5

reached : Reach before_leaving after_leaving
reached = next here (leave 5 emptied (succeeded emptied) one_client_leaves refl refl)

Reach-wait_sem_example :
    ((wait_sem emptied ≡ some drained) × (check_empty drained ≡ true))
    ⊎ ((k : ℕ) × (get_elem? after_leaving.phases k ≡ some woken) × (check_empty emptied ≡ true))
Reach-wait_sem_example =
    Reach-wait_sem {s = before_leaving} {t = after_leaving} (λ w e. ground arith) reached refl refl

-- The first of them takes the only post and returns; `sem_wait` blocks the other one, although the
-- registry is empty.
abbrev first_back : Scene
first_back = record { registry = drained; phases = returned ∷ waiting ∷ [] }

reached_back : Reach before_leaving first_back
unfolding wait_sem check_empty
reached_back = next (next reached (wake 0 drained refl refl refl)) (check 0 refl refl)

second_blocks : wait_sem first_back.registry ≡ none
unfolding wait_sem
second_blocks = refl
