-- ===== src/Registry/Membership.antt =====
-- Which descriptors a registry holds after `creg_register` and `creg_unregister`
-- (hw5/src/client_registry.c), and what its count says.
use cse320_fall.Base.{
  ℕ, suc, ◌+◌, ◌≡◌, refl, Bool, true, false, none, some, List, [], ◌∷◌, ◌++◌, arith, ◌==◌,
  if◌then◌else◌, any, length, length-append, ap,
}
use mathlib.Core.List.{append_assoc}
use cse320_fall.Base.Int.{ℤ, pos, negsuc, ◌+ℤ◌, ◌-ℤ◌, +ℤ_cancel}
use cse320_fall.Registry.{
  Registry, Outcome, refused, einval, add_last, creg_register, unlink_first, creg_unregister,
  shutdown_each, shutdown_all,
}

-- All clients but the last one.
abbrev pub all_but_last : List ℕ → List ℕ
all_but_last [] = []
all_but_last (c ∷ []) = []
all_but_last (c ∷ d ∷ rest) = c ∷ all_but_last (d ∷ rest)

abbrev pub holds : ℕ → List ℕ → Bool
holds fd = any (λ c. c == fd)

-- The list without the first occurrence of a descriptor.
abbrev pub without : ℕ → List ℕ → List ℕ
without fd [] = []
without fd (c ∷ rest) = if c == fd then rest else c ∷ without fd rest

pub add_last_lem :
    (fd : ℕ) (l : List ℕ)
    → add_last fd l ≡ (if holds fd (all_but_last l) then none else some (l ++ (fd ∷ [])))
unfolding add_last
add_last_lem fd [] = refl
add_last_lem fd (c ∷ []) = refl
add_last_lem fd (c ∷ d ∷ rest) = ground (arith, add_last_lem fd (d ∷ rest))

pub unlink_first_lem :
    (fd : ℕ) (l : List ℕ) → unlink_first fd l ≡ (if holds fd l then some (without fd l) else none)
unfolding unlink_first
unlink_first_lem fd [] = refl
unlink_first_lem fd (c ∷ rest) = ground (arith, unlink_first_lem fd rest)

abbrev pub added : Registry → ℕ → Registry
added r fd = record {
  total_clients = r.total_clients +ℤ pos 1;
  sem = r.sem + 1;
  clients = r.clients ++ (fd ∷ []);
}

abbrev pub removed : Registry → ℕ → Registry
removed r fd = record {
  total_clients = r.total_clients -ℤ pos 1;
  sem = r.sem + 1;
  clients = without fd r.clients;
}

abbrev pub succeeded : Registry → Outcome
succeeded r = record { ret = pos 0; errno = none; registry = some r }

-- With memory, `creg_register` refuses a descriptor that a client other than the last one holds,
-- and leaves the registry as it is; any other it appends, counts and posts.
pub creg_register_lem :
    (r : Registry) (fd : ℕ)
    → creg_register true (some r) fd ≡ (
        if holds fd (all_but_last r.clients) then refused none (some r) else succeeded (added r fd))
unfolding creg_register
creg_register_lem r fd = ground (arith, add_last_lem fd r.clients)

-- `creg_unregister` removes the first client that holds the descriptor, lowers the count and posts;
-- where no client holds it, it fails with EINVAL and leaves the registry as it is.
pub creg_unregister_lem :
    (r : Registry) (fd : ℕ)
    → creg_unregister (some r) fd
      ≡ (if holds fd r.clients then succeeded (removed r fd) else refused (some einval) (some r))
unfolding creg_unregister
creg_unregister_lem r fd = ground (arith, unlink_first_lem fd r.clients)

without-append : (fd : ℕ) (l : List ℕ) → holds fd l ≡ false → without fd (l ++ (fd ∷ [])) ≡ l
without-append fd [] h = ground arith
without-append fd (c ∷ rest) h = ground (arith, without-append fd rest)

holds-append : (fd : ℕ) (l : List ℕ) → holds fd (l ++ (fd ∷ [])) ≡ true
holds-append fd [] = ground arith
holds-append fd (c ∷ rest) = ground (arith, holds-append fd rest)

holds-all_but_last : (fd : ℕ) (l : List ℕ) → holds fd l ≡ false → holds fd (all_but_last l) ≡ false
holds-all_but_last fd [] h = refl
holds-all_but_last fd (c ∷ []) h = refl
holds-all_but_last fd (c ∷ d ∷ rest) h = ground (arith, holds-all_but_last fd (d ∷ rest))

-- A descriptor that no client holds is registered, and unregistering it gives back the clients and
-- the count from before; the semaphore has been posted twice.
pub creg_unregister-register :
    (r : Registry) (fd : ℕ)
    → holds fd r.clients ≡ false
    → (creg_register true (some r) fd ≡ succeeded (added r fd))
      × (creg_unregister (some (added r fd)) fd ≡ succeeded (record r { sem = r.sem + 1 + 1 }))
creg_unregister-register r fd h = (
  ground (arith, creg_register_lem r fd, holds-all_but_last fd r.clients),
  rw (creg_unregister_lem (added r fd) fd, holds-append fd r.clients)
      (λ i. succeeded (record {
        total_clients = +ℤ_cancel r.total_clients (pos 1) i;
        sem = r.sem + 1 + 1;
        clients = without-append fd r.clients h i;
      })),
)

all_but_last-append : (front : List ℕ) (fd : ℕ) → all_but_last (front ++ (fd ∷ [])) ≡ front
all_but_last-append [] fd = refl
all_but_last-append (c ∷ []) fd = refl
all_but_last-append (c ∷ d ∷ rest) fd = ap (λ l. c ∷ l) (all_but_last-append (d ∷ rest) fd)

-- A registry whose only holder of a descriptor is its last client accepts that descriptor again, so
-- that two clients hold it.
pub creg_register_twice :
    (front : List ℕ) (fd : ℕ) (total : ℤ) (sem : ℕ)
    → holds fd front ≡ false
    → creg_register true
        (some (record { total_clients = total; sem = sem; clients = front ++ (fd ∷ []) }))
        fd
      ≡ succeeded (record {
        total_clients = total +ℤ pos 1;
        sem = sem + 1;
        clients = front ++ (fd ∷ fd ∷ []);
      })
creg_register_twice front fd total sem h =
    rw (creg_register_lem, all_but_last-append front fd, h, append_assoc)

-- The calls of the service's threads, each under the mutex.
pub data Call : Type 0 where
  register : (allocated : Bool) → ℕ → Call
  unregister : ℕ → Call

abbrev after : Registry → Outcome → Registry
after r o = elim o.registry [ none ↦ r | some s ↦ s ]

pub call : Registry → Call → Registry
call r (register allocated fd) = after r (creg_register allocated (some r) fd)
call r (unregister fd) = after r (creg_unregister (some r) fd)

pub run : Registry → List Call → Registry
unfolding call
run r [] = r
run r (c ∷ cs) = run (call r c) cs

-- The cached count is the number of clients.
abbrev pub IsCounted : Registry → Type 0
IsCounted r = r.total_clients ≡ pos (length r.clients)

length-without : (fd : ℕ) (l : List ℕ) → holds fd l ≡ true → length l ≡ suc (length (without fd l))
length-without fd [] h = cc
length-without fd (c ∷ rest) h = ground (arith, length-without fd rest)

call-IsCounted : (r : Registry) (c : Call) → IsCounted r → IsCounted (call r c)
unfolding call creg_register
call-IsCounted r (register false fd) v = v
call-IsCounted r (register true fd) v =
    ground (arith, add_last_lem fd r.clients, length-append r.clients (fd ∷ []))
call-IsCounted r (unregister fd) v =
    ground (arith, creg_unregister_lem r fd, length-without fd r.clients)

-- After any calls of `creg_register` and `creg_unregister`, in any order, failed ones included, on
-- a registry whose count is right, the count is the number of clients.
pub run-IsCounted : (cs : List Call) (r : Registry) → IsCounted r → IsCounted (run r cs)
unfolding run
run-IsCounted [] r v = v
run-IsCounted (c ∷ cs) r v = run-IsCounted cs (call r c) (call-IsCounted r c v)

shutdown_each_lem : (l : List ℕ) (n : ℕ) → shutdown_each l (pos (length l + n)) ≡ (l, pos n)
unfolding shutdown_each
shutdown_each_lem [] n = ground arith
shutdown_each_lem (c ∷ rest) n = ground (arith, shutdown_each_lem rest n)

shutdown_all_lem :
    (r : Registry)
    → IsCounted r
    → shutdown_all r ≡ (r.clients, record r { total_clients = pos 0; sem = r.sem + 1 })
unfolding shutdown_all
shutdown_all_lem r v = ground (arith, shutdown_each_lem r.clients 0)

-- `creg_shutdown_all` on a registry whose count is right shuts every client's descriptor down, in
-- order, posts, keeps the clients and leaves a count of 0; so the next client that unregisters
-- leaves a count of -1.
pub creg_unregister-shutdown_all :
    (r : Registry) (fd : ℕ)
    → IsCounted r
    → holds fd r.clients ≡ true
    → (shutdown_all r ≡ (r.clients, record r { total_clients = pos 0; sem = r.sem + 1 }))
      × (creg_unregister (some (shutdown_all r).1) fd
          ≡ succeeded (record {
            total_clients = negsuc 0;
            sem = r.sem + 1 + 1;
            clients = without fd r.clients;
          }))
creg_unregister-shutdown_all r fd v h =
    (shutdown_all_lem r v, rw (shutdown_all_lem r v, creg_unregister_lem, h))
