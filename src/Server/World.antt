-- ===== src/Server/World.antt =====
-- What a client's service of hw5/src/server.c works on: the registry, the blobs, the connection and
-- the library xacto (hw5/lib/xacto.a), whose calls are parameters; and the packets that it sends
-- and receives. `malloc` of the packets sent succeeds.
use cse320_fall.Base.{ℕ, Bool, true, false, Option, none, some, List, []}
use cse320_fall.Registry.{Registry, creg_unregister}
use cse320_fall.Server.Blobs.{Blobs, blob_at, blob_unref, Key, ◌>>=◌}
use cse320_fall.Server.Packets.{
  Packet, xacto_value_pkt, xacto_reply_pkt, zero_packet, htonl, Slot, unset, freed, held, Status,
  success, failure, Wire, proto_send_packet, proto_recv_packet,
}

-- `TRANS_STATUS`.
pub data TransStatus : Type 0 where
  trans_pending trans_committed trans_aborted : TransStatus

abbrev pub code : TransStatus → ℕ
code trans_pending = 0
code trans_committed = 1
code trans_aborted = 2

abbrev pub is_aborted : TransStatus → Bool
is_aborted trans_aborted = true
is_aborted _ = false

-- The library's calls, which may create, copy and drop references to blobs.
pub record Xacto (X : Type 0) : Type 0 where
  pub trans_create : X → X × Option ℕ
  pub store_put : X → Blobs → (tp : ℕ) → Key → (value : ℕ) → X × Blobs × TransStatus
  pub store_get : X → Blobs → (tp : ℕ) → Key → X × Blobs × TransStatus × Option ℕ
  pub trans_commit : X → Blobs → (tp : ℕ) → X × Blobs × TransStatus
  pub trans_abort : X → Blobs → (tp : ℕ) → X × Blobs

pub record World (S X : Type 0) : Type 0 where
  pub registry : Registry
  pub blobs : Blobs
  pub wire : S
  pub xacto : X

-- How a service ends: the descriptor or the transaction could not be had, the service gave up
-- and aborted the transaction, or the library did with it what it reports.
pub data End : Type 0 where
  not_registered no_transaction gave_up aborted_by_store committed : End

pub data Served (S X : Type 0) : Type 0 where
  goes_on : World S X → Served S X
  ended : World S X → End → Served S X

-- The bytes that `*datap` leads to, as far as they are read.
abbrev pub bytes_of : Slot → List ℕ
bytes_of unset = []
bytes_of freed = []
bytes_of (held bytes) = bytes

-- `free(*datap)`.
abbrev pub free_slot : Slot → Option Slot
free_slot unset = none
free_slot freed = none
free_slot (held bytes) = some freed

abbrev pub to_host : Packet → Packet
to_host p = record p {
  serial = htonl p.serial;
  size = htonl p.size;
  timestamp_sec = htonl p.timestamp_sec;
  timestamp_nsec = htonl p.timestamp_nsec;
}

-- A registry after the call of `creg_unregister`.
abbrev pub without_client : ℕ → Registry → Registry
without_client fd r = elim (creg_unregister (some r) fd).registry [ none ↦ r | some r' ↦ r' ]

abbrev pub came {ℓ} : {S : Type ℓ} → S × Status × Packet × Slot → Option (Packet × Slot)
came (s, success, pkt, slot) = some (to_host pkt, slot)
came (s, failure e, pkt, slot) = none

module _ {S X : Type 0} where
  abbrev pub unregister : ℕ → World S X → World S X
  unregister fd w = record w { registry = without_client fd w.registry }

  abbrev pub received : World S X → S × Status × Packet × Slot → World S X × Option (Packet × Slot)
  received w r = (record w { wire = r.0 }, came r)

abbrev pub created : Blobs × Option ℕ → Option (Blobs × ℕ)
created (bs, none) = none
created (bs, some p) = some (bs, p)

abbrev pub unref_value : Blobs → Option ℕ → Option Blobs
unref_value bs none = some bs
unref_value bs (some p) = blob_unref bs p

-- The bytes and the size of the value's blob, which is read after its first `blob_unref`.
abbrev pub value_content : Blobs → Option ℕ → Option (Option (List ℕ) × ℕ)
value_content bs none = some (none, 0)
value_content bs (some p) = do b ← blob_at bs p; some (some b.content, b.size)

-- What follows a packet received, or the failure to receive it.
abbrev pub after_receive {ℓ} :
    {A : Type ℓ} → Option (Packet × Slot) → (failed : A) → (Packet → Slot → A) → A
after_receive none failed received = failed
after_receive (some (pkt, slot)) failed received = received pkt slot

module _ {S X : Type 0} (wire : Wire S) where
  unfoldable pub send_reply_packet : World S X → (request : Packet) → TransStatus → World S X
  send_reply_packet w request status =
      let response =
        to_host
          (record request { type = xacto_reply_pkt; status = code status; null = 1; size = 0 }) in
      record w { wire = (proto_send_packet wire w.wire response none).0 }

  unfoldable pub send_value_packet :
      World S X → (request : Packet) → Option (List ℕ) → (size : ℕ) → TransStatus → World S X
  send_value_packet w request payload size status =
      let response =
        to_host (record request {
          type = xacto_value_pkt;
          status = code status;
          null = 0;
          size = size;
        }) in
      record w { wire = (proto_send_packet wire w.wire response payload).0 }

  -- `proto_recv_packet` into a structure of zeros, with the fields in host order; `none` for -1.
  unfoldable pub receive : Bool → World S X → Slot → World S X × Option (Packet × Slot)
  receive allocated w slot = received w (proto_recv_packet wire allocated w.wire zero_packet slot)
