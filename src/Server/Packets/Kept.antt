-- ===== src/Server/Packets/Kept.antt =====
-- States of a connection that hw5/src/protocol.c does not leave.
use cse320_fall.Base.{
  ℕ, zero, suc, Bool, true, false, Option, none, some, List, [], ◌==◌, if◌then◌else◌, Option-cases,
  inl, inr, ltb, length,
}
use cse320_fall.Server.Blobs.{take}
use cse320_fall.Server.Packets.{
  Packet, Slot, Status, Wire, proto_send_packet, recv_payload, proto_recv_packet, packet_size,
  htonl, to_bytes, of_bytes, overwrite,
}

-- A property of the connection that sending, receiving and closing preserve.
pub record IsKept {S : Type 0} (wire : Wire S) (P : S → Type 0) : Type 0 where
  pub writes : (s : S) (bytes : List ℕ) → P s → P (wire.writen s bytes).0
  pub reads : (s : S) (n : ℕ) → P s → P (wire.readn s n).0
  pub closes : (s : S) → P s → P (wire.close s)

either {ℓ κ} :
    {A : Type ℓ} (P : A → Type κ) (b : Bool) (x y : A) → P x → P y → P (if b then x else y)
either P true x y p q = p
either P false x y p q = q

module _ {S : Type 0} (wire : Wire S) (P : S → Type 0) (kept : IsKept wire P) where
  abbrev OfFirst : S × Status → Type 0
  OfFirst r = P r.0

  abbrev OfReceived : S × Status × Packet × Slot → Type 0
  OfReceived r = P r.0

  pub proto_send_packet-IsKept :
      (s : S) (pkt : Packet) (payload : Option (List ℕ))
      → P s
      → P (proto_send_packet wire s pkt payload).0
  unfolding proto_send_packet
  proto_send_packet-IsKept s pkt none p =
      let q = kept.writes s (to_bytes (record pkt { null = 1 })) p in
      either OfFirst _ _ _ (kept.writes _ [] q) q
  proto_send_packet-IsKept s pkt (some bytes) p =
      let q = kept.writes s (to_bytes (record pkt { null = 0 })) p in
      either OfFirst _ _ _ (kept.writes _ (take (htonl pkt.size) bytes) q) q

  recv_payload-IsKept :
      (allocated : Bool) (s : S) (pkt : Packet) (slot : Slot) (size : ℕ)
      → P s
      → P (recv_payload wire allocated s pkt slot size).0
  unfolding recv_payload
  recv_payload-IsKept allocated s pkt slot zero p = p
  recv_payload-IsKept false s pkt slot (suc n) p = p
  recv_payload-IsKept true s pkt slot (suc n) p = elim (Option-cases (wire.readn s (suc n)).1) [
    | inl e ↦ rw (e, recv_payload) (kept.reads s (suc n) p)
    | inr (bytes, e) ↦ rw (e, recv_payload) (kept.reads s (suc n) p)
  ]

  -- After the packet's own bytes have been read.
  pub proto_recv_packet-after :
      (allocated : Bool) (s : S) (pkt : Packet) (slot : Slot)
      → P (wire.readn s packet_size).0
      → P (proto_recv_packet wire allocated s pkt slot).0
  unfolding proto_recv_packet
  proto_recv_packet-after allocated s pkt slot p =
      elim (Option-cases (wire.readn s packet_size).1) [
        | inl e ↦ rw (e, proto_recv_packet) p
        | inr (bytes, e) ↦
            let pkt1 = of_bytes (overwrite (to_bytes pkt) bytes) in
            rw (e, proto_recv_packet)
              (either OfReceived (ltb packet_size (htonl pkt1.size)) _ _ p (
                either OfReceived (length bytes == 0) _ _ (kept.closes _ p)
                  (recv_payload-IsKept allocated _ pkt1 slot (htonl pkt1.size) p)))
      ]

  pub proto_recv_packet-IsKept :
      (allocated : Bool) (s : S) (pkt : Packet) (slot : Slot)
      → P s
      → P (proto_recv_packet wire allocated s pkt slot).0
  proto_recv_packet-IsKept allocated s pkt slot p =
      proto_recv_packet-after allocated s pkt slot (kept.reads s packet_size p)
