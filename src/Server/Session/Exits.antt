-- ===== src/Server/Session/Exits.antt =====
-- How a service (hw5/src/server.c) ends, and how it leaves the registry of clients.
use cse320_fall.Base.{
  ℕ, zero, suc, ◌+◌, ◌-◌, ◌<◌, ◌≤◌, ◌≡◌, refl, false, Option, none, some, List, [], ◌∷◌, subst, inl,
  inr, ◌⊎◌, ◌&&◌, Bool-cases, arith, ◌∙◌, ap, length,
}
use cse320_fall.Registry.{Registry}
use cse320_fall.Registry.Membership.{holds, added, creg_unregister-register}
use cse320_fall.Server.Blobs.{◌>>=◌, take}
use cse320_fall.Server.Packets.{Wire, packet_size, htonl, to_bytes, of_bytes, proto_recv_packet}
use cse320_fall.Server.Packets.Exchange.{drop}
use cse320_fall.Server.Packets.Kept.{IsKept}
use cse320_fall.Server.World.{Xacto, World, Served, goes_on, ended, without_client, receive}
use cse320_fall.Server.Session.{Memory, serve_round, round_with, serve, xacto_client_service, begin}
use cse320_fall.Server.Session.Rounds.{Keeps, round_with-Keeps}

abbrev Any : {S : Type 0} → S → Type 0
Any s = Unit

module _ {S X : Type 0} where
  -- The registry while the service runs, and once it has ended.
  abbrev pub Restores : ℕ → Registry → Option (Served S X) → Type 0
  Restores fd r none = Unit
  Restores fd r (some (goes_on w)) = w.registry ≡ added r fd
  Restores fd r (some (ended w how)) = w.registry ≡ record r { sem = r.sem + 1 + 1 }

  -- The loop has been left, or a call has been a fault.
  abbrev pub IsOver : Option (Served S X) → Type 0
  IsOver none = Unit
  IsOver (some (goes_on w)) = ⊥
  IsOver (some (ended w how)) = Unit

module _ {S X : Type 0} (wire : Wire S) (xacto : Xacto X) (fd : ℕ) where
  continue-Keeps :
      (tp : ℕ) (r : Registry) (rounds : List Memory) (o : Option (Served S X))
      → ((w : World S X) → Keeps fd w.registry Any (serve wire xacto fd tp rounds w))
      → Keeps fd r Any o
      → Keeps fd r Any (
          o >>= λ served. elim served [
            | goes_on w1 ↦ serve wire xacto fd tp rounds w1
            | ended w1 how ↦ some (ended w1 how)
          ])
  continue-Keeps tp r rounds none k l = tt
  continue-Keeps tp r rounds (some (goes_on w1)) k l =
      subst (λ (r' : Registry). Keeps fd r' Any (serve wire xacto fd tp rounds w1)) l.0 (k w1)
  continue-Keeps tp r rounds (some (ended w1 how)) k l = l

  serve-Keeps :
      (tp : ℕ) (rounds : List Memory) (w : World S X)
      → Keeps fd w.registry Any (serve wire xacto fd tp rounds w)
  unfolding serve
  serve-Keeps tp [] w = (refl, tt)
  serve-Keeps tp (m ∷ rounds) w =
      let kept : IsKept wire Any = record {
        writes = λ s b p. tt;
        reads = λ s n p. tt;
        closes = λ s p. tt;
      } in
      continue-Keeps tp w.registry rounds (round_with wire xacto fd tp m w) (serve-Keeps tp rounds)
        (round_with-Keeps wire xacto fd tp Any kept m w tt)

  begin-Keeps :
      (rounds : List Memory) (w : World S X) (made : X × Option ℕ)
      → Keeps fd w.registry Any (begin wire xacto fd rounds w made)
  begin-Keeps rounds w (x, none) = refl
  begin-Keeps rounds w (x, some tp) = serve-Keeps tp rounds (record w { xacto = x })

  restored :
      (r : Registry) (o : Option (Served S X))
      → without_client fd (added r fd) ≡ record r { sem = r.sem + 1 + 1 }
      → Keeps fd (added r fd) Any o
      → Restores fd r o
  restored r none e k = tt
  restored r (some (goes_on w)) e k = k.0
  restored r (some (ended w how)) e k = k ∙ e

  -- A service for a descriptor that no client holds has it in the registry, as the last client,
  -- while it runs; however it ends, with `malloc` failing in any round, the registry has the clients and the count from before, and
  -- its semaphore has been posted twice.
  pub xacto_client_service-Restores :
      (rounds : List Memory) (w : World S X)
      → holds fd w.registry.clients ≡ false
      → Restores fd w.registry (xacto_client_service wire xacto fd rounds w)
  unfolding xacto_client_service
  xacto_client_service-Restores rounds w h =
      let r = w.registry in
      let k = creg_unregister-register r fd h in
      let out : without_client fd (added r fd) ≡ record r { sem = r.sem + 1 + 1 } =
        rw (k.1, without_client) refl in
      rw (k.0, xacto_client_service)
        (restored r
          (begin wire xacto fd rounds (record w { registry = added r fd })
            (xacto.trans_create w.xacto))
          out
          (begin-Keeps rounds (record w { registry = added r fd }) (xacto.trans_create w.xacto)))

-- What a client has sent and the service has not yet read: `readn` takes it from the front, and
-- neither sending nor closing changes it.
pub record IsInput {S : Type 0} (wire : Wire S) (pending : S → List ℕ) : Type 0 where
  pub reads :
      (s : S) (n : ℕ)
      → ((wire.readn s n).1 ≡ some (take n (pending s)))
        × (pending (wire.readn s n).0 ≡ drop n (pending s))
  pub writes : (s : S) (bytes : List ℕ) → pending (wire.writen s bytes).0 ≡ pending s
  pub closes : (s : S) → pending (wire.close s) ≡ pending s

list_cases : (l : List ℕ) → (l ≡ []) ⊎ ((n : ℕ) × (length l ≡ suc n))
list_cases [] = inl refl
list_cases (x ∷ l) = inr (length l, refl)

length-drop : (n : ℕ) (l : List ℕ) → length (drop n l) ≡ length l - n
length-drop zero l = ground arith
length-drop (suc n) [] = ground arith
length-drop (suc n) (x ∷ l) = ground (arith, length-drop n l)

module _ {S X : Type 0} (wire : Wire S) (xacto : Xacto X) (fd tp : ℕ) (pending : S → List ℕ)
    (input : IsInput wire pending) where
  abbrev AtMost : ℕ → S → Type 0
  AtMost n s = length (pending s) ≤ n

  AtMost-IsKept : (n : ℕ) → IsKept wire (AtMost n)
  AtMost-IsKept n = record {
    writes = λ s bytes p. rw (input.writes s bytes) p;
    reads = λ s m p. rw ((input.reads s m).1, length-drop m (pending s)) (omega arith);
    closes = λ s p. rw (input.closes s) p;
  }

  serve_round_at_end :
      (m : Memory) (w : World S X)
      → pending w.wire ≡ []
      → IsOver (serve_round wire xacto fd tp m.request m.key m.value w)
  unfolding serve_round receive proto_recv_packet of_bytes to_bytes htonl
  serve_round_at_end m w e =
      let nothing : (wire.readn w.wire packet_size).1 ≡ some [] =
        (input.reads w.wire packet_size).0 ∙ ap (λ l. some (take packet_size l)) e in
      rw (nothing, serve_round, receive, proto_recv_packet) tt

  round_with_at_end :
      (m : Memory) (w : World S X) → pending w.wire ≡ [] → IsOver (round_with wire xacto fd tp m w)
  unfolding round_with
  round_with_at_end m w e = elim (Bool-cases (m.packet && m.datap)) [
    | inl enough ↦ rw (round_with, enough) (serve_round_at_end m w e)
    | inr short ↦ rw (round_with, short) tt
  ]

  -- The rest of the loop after a round.
  then_IsOver :
      (rounds : List Memory) (n : ℕ) (r : Registry) (o : Option (Served S X))
      → Keeps fd r (AtMost n) o
      → ((w : World S X) → AtMost n w.wire → IsOver (serve wire xacto fd tp rounds w))
      → IsOver (
          o >>= λ served. elim served [
            | goes_on w1 ↦ serve wire xacto fd tp rounds w1
            | ended w1 how ↦ some (ended w1 how)
          ])
  then_IsOver rounds n r none k over = tt
  then_IsOver rounds n r (some (goes_on w)) k over = over w k.1
  then_IsOver rounds n r (some (ended w how)) k over = tt

  stays-IsOver :
      (rounds : List Memory) (o : Option (Served S X))
      → IsOver o
      → IsOver (
          o >>= λ served. elim served [
            | goes_on w1 ↦ serve wire xacto fd tp rounds w1
            | ended w1 how ↦ some (ended w1 how)
          ])
  stays-IsOver rounds none v = tt
  stays-IsOver rounds (some (goes_on w)) v = absurd v
  stays-IsOver rounds (some (ended w how)) v = tt

  after_header :
      (w : World S X) (n : ℕ)
      → length (pending w.wire) ≤ suc n
      → AtMost n (wire.readn w.wire packet_size).0
  after_header w n p =
      rw ((input.reads w.wire packet_size).1, length-drop packet_size (pending w.wire))
        (omega arith)

  -- A client that has sent so many bytes, and no more, is served in at most so many rounds and one,
  -- whichever calls of `malloc` fail in them: by then the loop has been left, or a call has been a
  -- fault.
  pub serve-IsOver :
      (rounds : List Memory) (w : World S X)
      → length (pending w.wire) < length rounds
      → IsOver (serve wire xacto fd tp rounds w)
  unfolding serve
  serve-IsOver [] w p = absurd (omega arith)
  serve-IsOver (m ∷ rounds) w p = elim (list_cases (pending w.wire)) [
    | inl e ↦ stays-IsOver rounds _ (round_with_at_end m w e)
    | inr (n, e) ↦
        then_IsOver rounds n w.registry _
          (round_with-Keeps wire xacto fd tp (AtMost n) (AtMost-IsKept n) m w
            (after_header w n (omega (arith, e))))
          (λ w1 q. serve-IsOver rounds w1 (omega (arith, e)))
  ]
