-- ===== src/Examples/Server.antt =====
-- The blobs, packets and services of hw5/src/data.c, protocol.c and server.c on a few inputs.
use cse320_fall.Base.{
  ℕ, zero, suc, false, ◌<◌, ◌≡◌, ◌≢◌, refl, true, none, some, List, [], ◌∷◌, ◌++◌, arith, length,
}
use cse320_fall.Base.Int.{pos}
use cse320_fall.Registry.{Registry}
use cse320_fall.Server.Blobs.{
  Blob, Blobs, take, blob_at, blob_compare, Key, key_create, key_dispose,
}
use cse320_fall.Server.Blobs.Counting.{create, ref, unref, run, view_of, run-view}
use cse320_fall.Server.Blobs.Comparing.{blob_of, blob_compare_collision, key_dispose-key_create}
use cse320_fall.Server.Packets.{
  Packet, zero_packet, htonl, to_bytes, of_bytes, overwrite, unset, held, success, failure,
  etimedout, Wire, proto_send_packet, proto_recv_packet, recv_payload, xacto_put_pkt,
  xacto_commit_pkt,
}
use cse320_fall.Server.Packets.Exchange.{
  drop, IsPipe, IsPacket, proto_recv_packet-proto_send_packet, proto_recv_packet_timeout,
}
use cse320_fall.Server.World.{trans_pending, trans_committed, Xacto, World, receive}
use cse320_fall.Server.Session.{Memory, serve, serve_put, serve_get, xacto_client_service}
use cse320_fall.Server.Session.Exits.{
  Restores, xacto_client_service-Restores, IsInput, IsOver, serve-IsOver,
}
use cse320_fall.Server.Session.Faults.{serve_put_empty, serve_get_empty}

run-view_example :
    view_of (run [] (create (7 ∷ 8 ∷ []) 2 ∷ ref 0 ∷ unref 0 ∷ create [] 0 ∷ unref 0 ∷ []))
    ≡ some (0 ∷ 1 ∷ [])
run-view_example =
    run-view (create (7 ∷ 8 ∷ []) 2 ∷ ref 0 ∷ unref 0 ∷ create [] 0 ∷ unref 0 ∷ []) [] tt

dropped_twice : view_of (run [] (create (7 ∷ []) 1 ∷ unref 0 ∷ unref 0 ∷ [])) ≡ none
dropped_twice = run-view (create (7 ∷ []) 1 ∷ unref 0 ∷ unref 0 ∷ []) [] tt

blob_compare_collision_example :
    (blob_compare (blob_of 1 (97 ∷ 124 ∷ [])) (blob_of 1 (98 ∷ 65 ∷ [])) ≡ 0)
    × (◌≢◌ {A = List ℕ} (97 ∷ 124 ∷ []) (98 ∷ 65 ∷ []))
blob_compare_collision_example =
    blob_compare_collision [] [] 97 65 1 1 (omega arith) (omega arith) (omega arith) (omega arith)

abbrev small_blob : Blob
small_blob = record { refcnt = 1; size = 2; content = 7 ∷ 8 ∷ [] }

key_dispose-key_create_example :
    (bs' : Blobs) × (k : Key) × (key_create (some small_blob ∷ []) 0 ≡ some (bs', k))
    × (blob_at bs' 0 ≡ some (record small_blob { refcnt = 2 }))
    × (key_dispose bs' k ≡ some (some small_blob ∷ []))
key_dispose-key_create_example =
    key_dispose-key_create (some small_blob ∷ []) 0 small_blob refl (omega arith)

-- A connection that returns what is written to it.
abbrev loopback : Wire (List ℕ)
loopback = record {
  writen = λ s bytes. (s ++ bytes, true);
  readn = λ s n. (drop n s, some (take n s));
  close = λ s. s;
}

abbrev pending : List ℕ → List ℕ
pending s = s

loopback-IsPipe : IsPipe loopback pending
loopback-IsPipe = record { writes = λ s bytes. (refl, refl); reads = λ s n. (refl, refl) }

abbrev packet : (type size : ℕ) → Packet
packet type size = record {
  type = type;
  status = 0;
  null = 0;
  serial = 1;
  size = size;
  timestamp_sec = 5;
  timestamp_nsec = 6;
}

abbrev two_bytes : Packet
two_bytes = packet 3 33554432

two_bytes-IsPacket : IsPacket two_bytes
two_bytes-IsPacket = record {
  serial = omega arith;
  size = omega arith;
  timestamp_sec = omega arith;
  timestamp_nsec = omega arith;
}

htonl-two : htonl 33554432 ≡ 2
unfolding htonl
htonl-two = refl

proto_recv_packet-proto_send_packet_example :
    let (s1, st) = proto_send_packet loopback [] two_bytes (some (7 ∷ 8 ∷ [])) in
    let r = proto_recv_packet loopback true s1 zero_packet unset in
    (st ≡ success) × (r.1 ≡ success) × (r.2 ≡ two_bytes) × (r.3 ≡ held (7 ∷ 8 ∷ [])) × (r.0 ≡ [])
proto_recv_packet-proto_send_packet_example =
    proto_recv_packet-proto_send_packet loopback pending loopback-IsPipe [] two_bytes unset 7
      (8 ∷ []) refl two_bytes-IsPacket htonl-two (omega arith)

abbrev long_payload : List ℕ
long_payload =
    1 ∷ 2 ∷ 3 ∷ 4 ∷ 5 ∷ 6 ∷ 7 ∷ 8 ∷ 9 ∷ 10 ∷ 11 ∷ 12 ∷ 13 ∷ 14 ∷ 15 ∷ 16 ∷ 17 ∷ 18 ∷ 19 ∷ 20 ∷ 21
    ∷ []

abbrev long_packet : Packet
long_packet = packet 3 352321536

long_packet-IsPacket : IsPacket long_packet
long_packet-IsPacket = record {
  serial = omega arith;
  size = omega arith;
  timestamp_sec = omega arith;
  timestamp_nsec = omega arith;
}

htonl-long : htonl 352321536 ≡ 21
unfolding htonl
htonl-long = refl

proto_recv_packet_timeout_example :
    let (s1, st) = proto_send_packet loopback [] long_packet (some long_payload) in
    (st ≡ success)
    × ((proto_recv_packet loopback true s1 zero_packet unset).1 ≡ failure (some etimedout))
proto_recv_packet_timeout_example =
    proto_recv_packet_timeout loopback pending loopback-IsPipe [] long_packet unset long_payload
      refl long_packet-IsPacket htonl-long (omega arith) (omega arith)

-- A connection with what the client sends and what it has received.
abbrev connection : Wire (List ℕ × List ℕ)
connection = record {
  writen = λ s bytes. ((s.0, s.1 ++ bytes), true);
  readn = λ s n. ((drop n s.0, s.1), some (take n s.0));
  close = λ s. s;
}

abbrev incoming : List ℕ × List ℕ → List ℕ
incoming s = s.0

connection-IsInput : IsInput connection incoming
connection-IsInput = record {
  reads = λ s n. (refl, refl);
  writes = λ s bytes. refl;
  closes = λ s. refl;
}

-- A store that takes everything and finds nothing.
abbrev sink : Xacto ℕ
sink = record {
  trans_create = λ x. (suc x, some x);
  store_put = λ x bs tp k v. (x, bs, trans_pending);
  store_get = λ x bs tp k. (x, bs, trans_pending, none);
  trans_commit = λ x bs tp. (x, bs, trans_committed);
  trans_abort = λ x bs tp. (x, bs);
}

abbrev one_client : Registry
one_client = record { total_clients = pos 1; sem = 0; clients = 5 ∷ [] }

abbrev world : List ℕ → World (List ℕ × List ℕ) ℕ
world sent = record { registry = one_client; blobs = []; wire = (sent, []); xacto = 0 }

-- PUT with the key 7 8 and the value 9 10, and COMMIT.
abbrev session : List ℕ
session =
    to_bytes (packet xacto_put_pkt 0)
    ++ to_bytes two_bytes
    ++ (7 ∷ 8 ∷ [])
    ++ to_bytes two_bytes
    ++ (9 ∷ 10 ∷ [])
    ++ to_bytes (packet xacto_commit_pkt 0)

abbrev plenty : Memory
plenty = record { packet = true; datap = true; request = true; key = true; value = true }

-- `malloc` fails in the second round.
abbrev scarce : Memory
scarce = record plenty { datap = false }

abbrev rounds : ℕ → List Memory
rounds zero = []
rounds (suc n) = plenty ∷ rounds n

xacto_client_service-Restores_example :
    Restores 6 one_client
      (xacto_client_service connection sink 6 (plenty ∷ scarce ∷ []) (world session))
xacto_client_service-Restores_example =
    xacto_client_service-Restores connection sink 6 (plenty ∷ scarce ∷ []) (world session) refl

session-length : length session < 85
unfolding to_bytes
session-length = omega arith

serve-IsOver_example : IsOver (serve connection sink 6 0 (rounds 85) (world session))
serve-IsOver_example =
    serve-IsOver connection sink 6 0 incoming connection-IsInput (rounds 85) (world session)
      session-length

abbrev empty_packet : List ℕ
empty_packet = 3 ∷ 0 ∷ 0 ∷ 0 ∷ 0 ∷ 0 ∷ 0 ∷ 1 ∷ 0 ∷ 0 ∷ 0 ∷ 0 ∷ 0 ∷ 0 ∷ 0 ∷ 5 ∷ 0 ∷ 0 ∷ 0 ∷ 6 ∷ []

empty_packet-size : (of_bytes (overwrite (to_bytes zero_packet) empty_packet)).size ≡ 0
unfolding of_bytes to_bytes
empty_packet-size = refl

serve_get_empty_example : serve_get connection sink 6 0 true (world empty_packet) unset ≡ none
serve_get_empty_example =
    serve_get_empty connection sink 6 0 (world empty_packet) empty_packet ([], []) refl refl
      empty_packet-size

abbrev key_sent : List ℕ
key_sent = to_bytes two_bytes ++ (7 ∷ 8 ∷ []) ++ empty_packet

abbrev key_packet : Packet
key_packet = record {
  type = 3;
  status = 0;
  null = 0;
  serial = 16777216;
  size = 2;
  timestamp_sec = 83886080;
  timestamp_nsec = 100663296;
}

key_received :
    receive connection true (world key_sent) unset
    ≡ (world empty_packet, some (key_packet, held (7 ∷ 8 ∷ [])))
unfolding receive proto_recv_packet recv_payload to_bytes of_bytes htonl
key_received = refl

serve_put_empty_example : serve_put connection sink 6 0 true true (world key_sent) unset ≡ none
serve_put_empty_example =
    serve_put_empty connection sink 6 0 (world key_sent) (world empty_packet) key_packet unset
      (7 ∷ 8 ∷ []) empty_packet ([], []) key_received refl refl empty_packet-size
