-- ===== src/Server/Packets.antt =====
-- Packets on a connection, hw5/src/protocol.c, with the structure of hw5/include/protocol.h. Memory
-- is little-endian, and the structure has one byte of padding behind `null`. `readn` and `writen`
-- of hw5/src/csapp.c, a textbook's library, are parameters.
pub mod Exchange
pub mod Kept
use cse320_fall.Base.{
  ℕ, zero, suc, ◌+◌, ◌-◌, ◌*◌, ◌/◌, ◌%◌, ◌^◌, Bool, true, false, ◌&&◌, Option, none, some, List, [],
  ◌∷◌, ◌++◌, ltb, ◌==◌, if◌then◌else◌, get_or, length,
}
use cse320_fall.Server.Blobs.{take}

pub record Packet : Type 0 where
  pub type : ℕ
  pub status : ℕ
  pub null : ℕ
  pub serial : ℕ
  pub size : ℕ
  pub timestamp_sec : ℕ
  pub timestamp_nsec : ℕ

-- `XACTO_PACKET_TYPE`.
abbrev pub xacto_put_pkt : ℕ
xacto_put_pkt = 1

abbrev pub xacto_get_pkt : ℕ
xacto_get_pkt = 2

abbrev pub xacto_value_pkt : ℕ
xacto_value_pkt = 4

abbrev pub xacto_commit_pkt : ℕ
xacto_commit_pkt = 5

abbrev pub xacto_reply_pkt : ℕ
xacto_reply_pkt = 6

-- `sizeof(XACTO_PACKET)`.
abbrev pub packet_size : ℕ
packet_size = 20

-- `memset(pkt, 0, sizeof(XACTO_PACKET))`.
abbrev pub zero_packet : Packet
zero_packet = record {
  type = 0;
  status = 0;
  null = 0;
  serial = 0;
  size = 0;
  timestamp_sec = 0;
  timestamp_nsec = 0;
}

-- `htonl` and `ntohl`: the four bytes in the other order.
unfoldable pub htonl : ℕ → ℕ
htonl x = x % 256 * 2 ^ 24 + x / 256 % 256 * 2 ^ 16 + x / 2 ^ 16 % 256 * 256 + x / 2 ^ 24 % 256

-- A field of 32 bits in memory, in front of what follows.
abbrev pub word_bytes : ℕ → List ℕ → List ℕ
word_bytes x rest = (x % 256) ∷ (x / 256 % 256) ∷ (x / 2 ^ 16 % 256) ∷ (x / 2 ^ 24 % 256) ∷ rest

abbrev pub word_at : List ℕ → ℕ → ℕ
word_at m i =
    get_or m i 0
    + get_or m (i + 1) 0 * 256
    + get_or m (i + 2) 0 * 2 ^ 16
    + get_or m (i + 3) 0 * 2 ^ 24

unfoldable pub to_bytes : Packet → List ℕ
to_bytes p =
    p.type
    ∷ p.status
    ∷ p.null
    ∷ 0
    ∷ word_bytes p.serial
        (word_bytes p.size (word_bytes p.timestamp_sec (word_bytes p.timestamp_nsec [])))

unfoldable pub of_bytes : List ℕ → Packet
of_bytes m = record {
  type = get_or m 0 0;
  status = get_or m 1 0;
  null = get_or m 2 0;
  serial = word_at m 4;
  size = word_at m 8;
  timestamp_sec = word_at m 12;
  timestamp_nsec = word_at m 16;
}

-- Memory after the first bytes have been written over.
abbrev pub overwrite : (memory bytes : List ℕ) → List ℕ
overwrite [] bytes = bytes
overwrite (m ∷ memory) [] = m ∷ memory
overwrite (m ∷ memory) (b ∷ bytes) = b ∷ overwrite memory bytes

-- What a payload's block holds: the bytes that came, and 0 for those that did not.
abbrev pub zeros : ℕ → List ℕ
zeros zero = []
zeros (suc n) = 0 ∷ zeros n

-- What `*datap` is: never set, a block that has been freed, or a block of bytes.
pub data Slot : Type 0 where
  unset freed : Slot
  held : List ℕ → Slot

pub data Errno : Type 0 where
  eio etimedout enomem : Errno

-- The result 0, or -1 with what `errno` is set to.
pub data Status : Type 0 where
  success : Status
  failure : Option Errno → Status

-- `writen` returns how many bytes it was given, or less than 0 when it fails. Whether that is still
-- not negative once it is stored in the `int` of 32 bits `sent`.
abbrev pub is_sent : (wrote : Bool) → (n : ℕ) → Bool
is_sent wrote n = wrote && ltb (n % 2 ^ 32) (2 ^ 31)

-- The connection: `writen` sends bytes, and says whether it could; `readn` receives up to so many
-- bytes, fewer only at the end of the stream, or fails.
pub record Wire (S : Type 0) : Type 0 where
  pub writen : S → List ℕ → S × Bool
  pub readn : S → ℕ → S × Option (List ℕ)
  pub close : S → S

module _ {S : Type 0} (wire : Wire S) where
  -- `data` is the memory at the payload's pointer, `none` for NULL.
  unfoldable pub proto_send_packet : S → Packet → Option (List ℕ) → S × Status
  proto_send_packet s pkt none =
      let (s1, sent) = wire.writen s (to_bytes (record pkt { null = 1 })) in
      let (s2, sent_none) = wire.writen s1 [] in
      if is_sent sent packet_size
      then (s2, if is_sent sent_none 0 then success else failure (some eio))
      else (s1, failure (some eio))
  proto_send_packet s pkt (some payload) =
      let (s1, sent) = wire.writen s (to_bytes (record pkt { null = 0 })) in
      let size = htonl pkt.size in
      let (s2, sent_payload) = wire.writen s1 (take size payload) in
      if is_sent sent packet_size
      then (s2, if is_sent sent_payload size then success else failure (some eio))
      else (s1, failure (some eio))

  -- The end of `proto_recv_packet`, for a size that is not too large; the flag says whether `malloc`
  -- succeeds. A failed call of `malloc` stores NULL, which may be freed as `unset` may not; the
  -- caller does not touch the payload after a failure.
  unfoldable pub recv_payload : Bool → S → Packet → Slot → (size : ℕ) → S × Status × Packet × Slot
  recv_payload allocated s pkt slot zero = (s, success, pkt, slot)
  recv_payload false s pkt slot (suc n) = (s, failure (some enomem), pkt, unset)
  recv_payload true s pkt slot (suc n) =
      let (s1, received) = wire.readn s (suc n) in
      elim received [
        | none ↦ (s1, failure (some eio), pkt, held (zeros (suc n)))
        | some bytes ↦ (s1, success, pkt, held (overwrite (zeros (suc n)) bytes))
      ]

  -- Receives into the caller's structure and `*datap`.
  unfoldable pub proto_recv_packet : Bool → S → Packet → Slot → S × Status × Packet × Slot
  proto_recv_packet allocated s pkt slot =
      let (s1, received) = wire.readn s packet_size in
      elim received [
        | none ↦ (s1, failure (some eio), pkt, slot)
        | some bytes ↦
            let pkt1 = of_bytes (overwrite (to_bytes pkt) bytes) in
            let rest = recv_payload allocated s1 pkt1 slot (htonl pkt1.size) in
            if ltb packet_size (htonl pkt1.size)
            then (s1, failure (some etimedout), pkt1, slot)
            else if length bytes == 0
            then (wire.close s1, failure none, pkt1, slot)
            else rest
      ]
