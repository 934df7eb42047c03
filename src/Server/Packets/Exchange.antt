-- ===== src/Server/Packets/Exchange.antt =====
-- Which packets that one end sends the other end receives (hw5/src/protocol.c).
use cse320_fall.Base.{
  ℕ, zero, suc, ◌^◌, ◌<◌, ◌≤◌, ◌≡◌, refl, true, false, some, List, [], ◌∷◌, ◌++◌, arith, ltb, ◌==◌,
  length, ap, ◌∙◌,
}
use cse320_fall.Server.Blobs.{take}
use cse320_fall.Server.Packets.{
  Packet, zero_packet, packet_size, htonl, to_bytes, of_bytes, overwrite, Slot, held, etimedout,
  success, failure, Wire, proto_send_packet, recv_payload, proto_recv_packet, zeros,
}

abbrev pub drop : ℕ → List ℕ → List ℕ
drop zero xs = xs
drop (suc n) [] = []
drop (suc n) (x ∷ xs) = drop n xs

-- A connection that keeps what has been written until it is read.
pub record IsPipe {S : Type 0} (wire : Wire S) (pending : S → List ℕ) : Type 0 where
  pub writes :
      (s : S) (bytes : List ℕ)
      → ((wire.writen s bytes).1 ≡ true) × (pending (wire.writen s bytes).0 ≡ pending s ++ bytes)
  pub reads :
      (s : S) (n : ℕ)
      → ((wire.readn s n).1 ≡ some (take n (pending s)))
        × (pending (wire.readn s n).0 ≡ drop n (pending s))

-- A packet whose fields are within their widths.
pub record IsPacket (p : Packet) : Type 0 where
  pub serial : p.serial < 2 ^ 32
  pub size : p.size < 2 ^ 32
  pub timestamp_sec : p.timestamp_sec < 2 ^ 32
  pub timestamp_nsec : p.timestamp_nsec < 2 ^ 32

of_bytes-to_bytes : (p q : Packet) → IsPacket p → of_bytes (overwrite (to_bytes q) (to_bytes p)) ≡ p
unfolding of_bytes to_bytes
of_bytes-to_bytes p q v = ground arith

take-all : (xs : List ℕ) → take (length xs) xs ≡ xs
take-all [] = refl
take-all (x ∷ xs) = ap (λ l. x ∷ l) (take-all xs)

drop-all : (xs : List ℕ) → drop (length xs) xs ≡ []
drop-all [] = refl
drop-all (x ∷ xs) = drop-all xs

overwrite-zeros : (xs : List ℕ) → overwrite (zeros (length xs)) xs ≡ xs
overwrite-zeros [] = refl
overwrite-zeros (x ∷ xs) = ap (λ l. x ∷ l) (overwrite-zeros xs)

take-to_bytes : (p : Packet) (rest : List ℕ) → take packet_size (to_bytes p ++ rest) ≡ to_bytes p
unfolding to_bytes
take-to_bytes p rest = refl

drop-to_bytes : (p : Packet) (rest : List ℕ) → drop packet_size (to_bytes p ++ rest) ≡ rest
unfolding to_bytes
drop-to_bytes p rest = refl

module _ {S : Type 0} (wire : Wire S) (pending : S → List ℕ) (pipe : IsPipe wire pending) where
  sent :
      (s : S) (pkt : Packet) (payload : List ℕ)
      → pending s ≡ []
      → htonl pkt.size ≡ length payload
      → length payload < 2 ^ 31
      → let (s1, st) = proto_send_packet wire s pkt (some payload) in
        (st ≡ success) × (pending s1 ≡ to_bytes (record pkt { null = 0 }) ++ payload)
  unfolding proto_send_packet
  sent s pkt payload empty size low =
      let header = to_bytes (record pkt { null = 0 }) in
      let s1 = (wire.writen s header).0 in
      ground (
        arith,
        pipe.writes s header,
        pipe.writes s1 (take (htonl pkt.size) payload),
        take-all payload,
      )

  received_header :
      (s : S) (pkt : Packet) (rest : List ℕ)
      → IsPacket pkt
      → pending s ≡ to_bytes pkt ++ rest
      → ((wire.readn s packet_size).1 ≡ some (to_bytes pkt))
        × (pending (wire.readn s packet_size).0 ≡ rest)
  received_header s pkt rest v e = (
    (pipe.reads s packet_size).0 ∙ ap some (ap (take packet_size) e ∙ take-to_bytes pkt rest),
    (pipe.reads s packet_size).1 ∙ ap (drop packet_size) e ∙ drop-to_bytes pkt rest,
  )

  received_payload :
      (s : S) (pkt : Packet) (slot : Slot) (x : ℕ) (xs : List ℕ)
      → pending s ≡ x ∷ xs
      → let r = recv_payload wire true s pkt slot (suc (length xs)) in
        (r.1 ≡ success) × (r.2 ≡ pkt) × (r.3 ≡ held (x ∷ xs)) × (pending r.0 ≡ [])
  unfolding recv_payload
  received_payload s pkt slot x xs e =
      let came : (wire.readn s (suc (length xs))).1 ≡ some (x ∷ xs) =
        (pipe.reads s (suc (length xs))).0
        ∙ ap some (ap (take (suc (length xs))) e ∙ take-all (x ∷ xs)) in
      rw (came, recv_payload)
        (
          refl,
          refl,
          ap held (overwrite-zeros (x ∷ xs)),
          (pipe.reads s (suc (length xs))).1 ∙ ap (drop (suc (length xs))) e ∙ drop-all (x ∷ xs),
        )

  -- Over a connection that keeps bytes until they are read, a packet whose fields are in range, sent
  -- with a payload of 1 to 20 bytes, arrives as it was with `null` cleared, and the payload
  -- with it, and nothing is left to read.
  pub proto_recv_packet-proto_send_packet :
      (s : S) (pkt : Packet) (slot : Slot) (x : ℕ) (xs : List ℕ)
      → pending s ≡ []
      → IsPacket pkt
      → htonl pkt.size ≡ suc (length xs)
      → suc (length xs) ≤ 20
      → let (s1, st) = proto_send_packet wire s pkt (some (x ∷ xs)) in
        let r = proto_recv_packet wire true s1 zero_packet slot in
        (st ≡ success)
        × (r.1 ≡ success)
        × (r.2 ≡ record pkt { null = 0 })
        × (r.3 ≡ held (x ∷ xs))
        × (pending r.0 ≡ [])
  unfolding proto_recv_packet
  proto_recv_packet-proto_send_packet s pkt slot x xs empty v size short =
      let p = record pkt { null = 0 } in
      let s1 = (proto_send_packet wire s pkt (some (x ∷ xs))).0 in
      let k : IsPacket p = record {
        serial = v.serial;
        size = v.size;
        timestamp_sec = v.timestamp_sec;
        timestamp_nsec = v.timestamp_nsec;
      } in
      let gone = sent s pkt (x ∷ xs) empty size (omega arith) in
      let head = received_header s1 p (x ∷ xs) k gone.1 in
      let s2 = (wire.readn s1 packet_size).0 in
      let body = received_payload s2 p slot x xs head.1 in
      let fits : ltb packet_size (suc (length xs)) ≡ false = ground arith in
      let some_bytes : (length (to_bytes p) == 0) ≡ false = unfold to_bytes in refl in
      rw (head.0, proto_recv_packet, of_bytes-to_bytes p zero_packet k, size, fits, some_bytes)
        (gone.0, body.0, body.1, body.2, body.3)

  -- Over a connection that keeps bytes until they are read, a payload of more than 20 and less than
  -- 2^31 bytes is sent, but never arrives: the other end takes its size for a timeout.
  pub proto_recv_packet_timeout :
      (s : S) (pkt : Packet) (slot : Slot) (payload : List ℕ)
      → pending s ≡ []
      → IsPacket pkt
      → htonl pkt.size ≡ length payload
      → 20 < length payload
      → length payload < 2 ^ 31
      → let (s1, st) = proto_send_packet wire s pkt (some payload) in
        (st ≡ success)
        × ((proto_recv_packet wire true s1 zero_packet slot).1 ≡ failure (some etimedout))
  unfolding proto_recv_packet
  proto_recv_packet_timeout s pkt slot payload empty v size long low =
      let p = record pkt { null = 0 } in
      let s1 = (proto_send_packet wire s pkt (some payload)).0 in
      let k : IsPacket p = record {
        serial = v.serial;
        size = v.size;
        timestamp_sec = v.timestamp_sec;
        timestamp_nsec = v.timestamp_nsec;
      } in
      let gone = sent s pkt payload empty size low in
      let head = received_header s1 p payload k gone.1 in
      let exceeds : ltb packet_size (length payload) ≡ true = ground arith in
      rw (head.0, proto_recv_packet, of_bytes-to_bytes p zero_packet k, size, exceeds)
        (gone.0, refl)
