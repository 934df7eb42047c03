-- ===== src/Registry/Waiting.antt =====
-- `creg_wait_for_empty` beside the clients' threads (hw5/src/client_registry.c): which wake-ups the
-- semaphore guarantees.
use cse320_fall.Base.{
  ℕ, zero, suc, ◌-◌, ◌<◌, ◌≢◌, ◌≡◌, refl, Bool, true, false, ◌&&◌, some, List, [], ◌∷◌, arith,
  if◌then◌else◌, get_elem?, set, ◌⊎◌, inl, inr, Bool-cases,
}
use cse320_fall.Registry.{
  Registry, Outcome, creg_register, creg_unregister, shutdown_all, wait_sem, check_empty, add_last,
}

-- Where a thread in `creg_wait_for_empty` is: before `sem_wait`, between it and the check under
-- the mutex, or back from the call.
pub data Phase : Type 0 where
  waiting woken returned : Phase

-- Any number of threads may be in the call.
pub record Scene : Type 0 where
  pub registry : Registry
  pub phases : List Phase

-- One step of one thread: a call of a client with memory at hand, the call of `creg_shutdown_all`,
-- the call of `creg_wait_for_empty`, or a half of a round of its loop, in the thread at place `k`.
pub data Step (s t : Scene) : Type 0 where
  arrive :
      (fd : ℕ) (r : Registry) (o : Outcome)
      → creg_register true (some s.registry) fd ≡ o
      → o.registry ≡ some r
      → t ≡ record s { registry = r }
      → Step s t
  leave :
      (fd : ℕ) (r : Registry) (o : Outcome)
      → creg_unregister (some s.registry) fd ≡ o
      → o.registry ≡ some r
      → t ≡ record s { registry = r }
      → Step s t
  shut : t ≡ record s { registry = (shutdown_all s.registry).1 } → Step s t
  enter : t ≡ record s { phases = waiting ∷ s.phases } → Step s t
  wake :
      (k : ℕ) (r : Registry)
      → get_elem? s.phases k ≡ some waiting
      → wait_sem s.registry ≡ some r
      → t ≡ record { registry = r; phases = set s.phases k woken }
      → Step s t
  check :
      (k : ℕ)
      → get_elem? s.phases k ≡ some woken
      → t ≡ record s {
        phases = set s.phases k (if check_empty s.registry then returned else waiting);
      }
      → Step s t

pub data Reach (s : Scene) : Scene → Type 0 where
  here : Reach s s
  next : {t u : Scene} → Reach s t → Step t u → Reach s u

abbrev pub is_waiting : Phase → Bool
is_waiting waiting = true
is_waiting woken = false
is_waiting returned = false

abbrev pub all_waiting : List Phase → Bool
all_waiting [] = true
all_waiting (p ∷ ps) = is_waiting p && all_waiting ps

-- No wake-up is lost: an empty registry whose waiting threads are all before `sem_wait` has a post
-- for one of them to take.
abbrev pub NoneLost : Scene → Type 0
NoneLost s = all_waiting s.phases ≡ true → s.registry.clients ≡ [] → 0 < s.registry.sem

-- A thread that has been woken or is back is not before `sem_wait`.
all_waiting-set :
    (ps : List Phase) (k : ℕ) (p q : Phase)
    → get_elem? ps k ≡ some p
    → is_waiting q ≡ false
    → all_waiting (set ps k q) ≡ false
all_waiting-set [] k p q h e = ground arith
all_waiting-set (x ∷ ps) zero p q h e = rw e refl
all_waiting-set (x ∷ ps) (suc k) p q h e = let rest = all_waiting-set ps k p q h e in ground arith

add_last-cons : (fd : ℕ) (l m : List ℕ) → add_last fd l ≡ some m → m ≢ []
unfolding add_last
add_last-cons fd [] m h = ground arith
add_last-cons fd (c ∷ []) m h = ground arith
add_last-cons fd (c ∷ d ∷ rest) m h = ground arith

Step-NoneLost : {s t : Scene} → Step s t → NoneLost s → NoneLost t
unfolding creg_register creg_unregister shutdown_all check_empty
Step-NoneLost {s} (arrive fd r o e f g) v = ground (arith, add_last-cons fd s.registry.clients)
Step-NoneLost {s} (leave fd r o e f g) v = ground arith
Step-NoneLost {s} (shut g) v = ground arith
Step-NoneLost {s} (enter g) v = ground arith
Step-NoneLost {s} (wake k r w e g) v =
    ground (arith, all_waiting-set s.phases k waiting woken w refl)
Step-NoneLost {s} (check k w g) v = ground (arith, all_waiting-set s.phases k woken returned w refl)

Reach-NoneLost : {s t : Scene} → NoneLost s → Reach s t → NoneLost t
Reach-NoneLost v here = v
Reach-NoneLost v (next r st) = Step-NoneLost st (Reach-NoneLost v r)

abbrev pub none_returned : List Phase → Bool
none_returned [] = true
none_returned (returned ∷ ps) = false
none_returned (waiting ∷ ps) = none_returned ps
none_returned (woken ∷ ps) = none_returned ps

-- A thread in the call that is not before `sem_wait` has been woken.
find_woken :
    (ps : List Phase)
    → none_returned ps ≡ true
    → all_waiting ps ≡ false
    → (k : ℕ) × (get_elem? ps k ≡ some woken)
find_woken [] n a = ground arith
find_woken (returned ∷ ps) n a = ground arith
find_woken (woken ∷ ps) n a = (0, refl)
find_woken (waiting ∷ ps) n a = let (k, e) = find_woken ps n a in (suc k, e)

-- From a registry that has been posted to, or has clients, whatever the clients' threads and any
-- number of threads in `creg_wait_for_empty` do next: whenever the clients are gone and no thread
-- is back from the call, either `sem_wait` does not block and the check after it returns, or a
-- thread has been woken and its check returns.
pub Reach-wait_sem :
    {s t : Scene}
    → NoneLost s
    → Reach s t
    → none_returned t.phases ≡ true
    → t.registry.clients ≡ []
    → let woken_registry = record t.registry { sem = t.registry.sem - 1 } in
      ((wait_sem t.registry ≡ some woken_registry) × (check_empty woken_registry ≡ true))
      ⊎ ((k : ℕ) × (get_elem? t.phases k ≡ some woken) × (check_empty t.registry ≡ true))
unfolding wait_sem check_empty
Reach-wait_sem {t} v reach n e = elim (Bool-cases (all_waiting t.phases)) [
  | inl all ↦ inl (ground (arith, Reach-NoneLost v reach all e))
  | inr some_woken ↦ let (k, at) = find_woken t.phases n some_woken in inr (k, at, ground arith)
]
