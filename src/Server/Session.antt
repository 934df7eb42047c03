-- ===== src/Server/Session.antt =====
-- The service of one client, hw5/src/server.c: `xacto_client_service`, request by request.
-- The transactions and the store of the library xacto (hw5/lib/xacto.a) are parameters. Whether
-- `malloc` succeeds in a round of the loop is said by a record of flags; in the registration of the
-- client, the creation of blobs and keys and the packets sent it does. What is freed only in the service's own memory is left out, but for `*datap`: freeing it
-- unless it holds a block is a fault.
pub mod Rounds
pub mod Exits
pub mod Faults
use cse320_fall.Base.{
  ℕ, zero, suc, ◌+◌, Bool, true, false, ◌&&◌, Option, none, some, List, [], ◌∷◌, ltb, ◌==◌,
  if◌then◌else◌,
}
use cse320_fall.Base.Int.{ℤ, pos, negsuc}
use cse320_fall.Registry.{Registry, creg_register, creg_unregister}
use cse320_fall.Server.Blobs.{
  Blob, Blobs, blob_at, blob_create, blob_unref, Key, key_create, key_dispose, ◌>>=◌,
}
use cse320_fall.Server.Packets.{
  Packet, xacto_put_pkt, xacto_get_pkt, xacto_value_pkt, xacto_commit_pkt, xacto_reply_pkt,
  zero_packet, htonl, Slot, unset, freed, held, Status, success, failure, Wire, proto_send_packet,
  proto_recv_packet,
}
use cse320_fall.Server.World.{
  TransStatus, code, is_aborted, Xacto, World, End, Served, bytes_of, free_slot, to_host,
  without_client, came, unregister, received, created, unref_value, value_content, after_receive,
  send_reply_packet, send_value_packet, receive, trans_pending, trans_committed, trans_aborted,
  not_registered, no_transaction, gave_up, aborted_by_store, committed, goes_on, ended,
}

-- Which calls of `malloc` in a round succeed: those of `req_pkt` and `datap`, and those of the up to
-- three payloads that are received.
pub record Memory : Type 0 where
  pub packet : Bool
  pub datap : Bool
  pub request : Bool
  pub key : Bool
  pub value : Bool

module _ {S X : Type 0} (wire : Wire S) (xacto : Xacto X) (fd tp : ℕ) where
  -- `creg_unregister` and `trans_abort` at the exits.
  abbrev pub give_up : World S X → Served S X
  give_up w =
      let (x, bs) = xacto.trans_abort w.xacto w.blobs tp in
      ended (record (unregister fd w) { blobs = bs; xacto = x }) gave_up

  -- The end of the case PUT, after `store_put`.
  unfoldable pub put_stored :
      World S X → Packet → Slot → Key → (tmp_blob value : ℕ) → TransStatus → Option (Served S X)
  put_stored w pkt slot key tmp_blob value status =
      let w1 = send_reply_packet wire w pkt status in
      if is_aborted status
      then (do
        bs1 ← key_dispose w.blobs key
        bs2 ← blob_unref bs1 tmp_blob
        bs3 ← blob_unref bs2 value
        _freed ← free_slot slot
        some (ended (unregister fd (record w { blobs = bs3 })) aborted_by_store))
      else (do
        bs1 ← blob_unref w1.blobs value
        bs2 ← blob_unref bs1 tmp_blob
        _freed ← free_slot slot
        some (goes_on (record w1 { blobs = bs2 })))

  -- The case PUT: the key's packet, then the value's.
  unfoldable pub put_value : Bool → World S X → Slot → Key → (tmp_blob : ℕ) → Option (Served S X)
  put_value allocated w slot key tmp_blob =
      let (w1, read_value) = receive wire allocated w slot in
      after_receive read_value
        ((do
          bs1 ← key_dispose w1.blobs key
          bs2 ← blob_unref bs1 tmp_blob
          some (give_up (record w1 { blobs = bs2 }))))
        λ pkt slot1. (do
          (bs, value) ← created (blob_create true true w1.blobs (bytes_of slot1) pkt.size)
          let (x, bs1, status) = xacto.store_put w1.xacto bs tp key value
          put_stored (record w1 { blobs = bs1; xacto = x }) pkt slot1 key tmp_blob value status)

  unfoldable pub serve_put :
      (key_allocated allocated : Bool) → World S X → Slot → Option (Served S X)
  serve_put key_allocated allocated w slot =
      let (w1, read_key) = receive wire key_allocated w slot in
      after_receive read_key (some (give_up w1)) λ pkt slot1. (do
        (bs, tmp_blob) ← created (blob_create true true w1.blobs (bytes_of slot1) pkt.size)
        (bs1, key) ← key_create bs tmp_blob
        slot2 ← free_slot slot1
        put_value allocated (record w1 { blobs = bs1 }) slot2 key tmp_blob)

  -- The end of the case GET, after `store_get`.
  unfoldable pub get_stored :
      World S X
      → Packet
      → Slot
      → (tmp_blob : ℕ) → (value : Option ℕ) → TransStatus
      → Option (Served S X)
  get_stored w pkt slot tmp_blob value status =
      let w1 = send_reply_packet wire w pkt status in
      if is_aborted status
      then (do
        bs1 ← blob_unref w.blobs tmp_blob
        v ← value
        bs2 ← blob_unref bs1 v
        _freed ← free_slot slot
        some (ended (unregister fd (record w { blobs = bs2 })) aborted_by_store))
      else (do
        bs1 ← unref_value w1.blobs value
        (content, size) ← value_content bs1 value
        let w2 = send_value_packet wire w1 pkt content size status
        bs2 ← blob_unref bs1 tmp_blob
        bs3 ← unref_value bs2 value
        _freed ← free_slot slot
        some (goes_on (record w2 { blobs = bs3 })))

  unfoldable pub serve_get : Bool → World S X → Slot → Option (Served S X)
  serve_get allocated w slot =
      let (w1, read_value) = receive wire allocated w slot in
      after_receive read_value (some (give_up w1)) λ pkt slot1. (do
        (bs, tmp_blob) ← created (blob_create true true w1.blobs (bytes_of slot1) pkt.size)
        (bs1, key) ← key_create bs tmp_blob
        let (x, bs2, status, value) = xacto.store_get w1.xacto bs1 tp key
        get_stored (record w1 { blobs = bs2; xacto = x }) pkt slot1 tmp_blob value status)

  unfoldable pub serve_commit : World S X → Packet → Served S X
  serve_commit w pkt =
      let (x, bs, status) = xacto.trans_commit w.xacto w.blobs tp in
      let w1 = record w { blobs = bs; xacto = x } in
      let w2 = unregister fd (send_reply_packet wire w1 pkt status) in
      if is_aborted status
      then ended (unregister fd w1) aborted_by_store
      else ended (record w2 { wire = wire.close w2.wire }) committed

  -- The switch of the loop. A packet of any other type is passed over.
  unfoldable pub dispatch :
      (key_allocated value_allocated : Bool) → World S X → Packet → Slot → Option (Served S X)
  dispatch key_allocated value_allocated w pkt slot =
      if pkt.type == xacto_put_pkt
      then serve_put key_allocated value_allocated w slot
      else if pkt.type == xacto_get_pkt
      then serve_get key_allocated w slot
      else if pkt.type == xacto_commit_pkt
      then some (serve_commit w pkt)
      else some (goes_on w)

  -- A round of the loop; the flags are those of the up to three payloads that it receives.
  unfoldable pub serve_round :
      (request_allocated key_allocated value_allocated : Bool) → World S X → Option (Served S X)
  serve_round request_allocated key_allocated value_allocated w =
      let (w1, read) = receive wire request_allocated w unset in
      after_receive read (some (give_up w1))
        λ pkt slot. dispatch key_allocated value_allocated w1 pkt slot

  -- A round from its first `malloc` on; without the request's packet or `datap` the loop is left.
  unfoldable pub round_with : Memory → World S X → Option (Served S X)
  round_with m w =
      let served = serve_round m.request m.key m.value w in
      if m.packet && m.datap then served else some (give_up w)

  -- A round of the loop for each record of memory, if it is not left before.
  unfoldable pub serve : List Memory → World S X → Option (Served S X)
  serve [] w = some (goes_on w)
  serve (m ∷ rounds) w = round_with m w >>= λ served. elim served [
    | goes_on w1 ↦ serve rounds w1
    | ended w1 how ↦ some (ended w1 how)
  ]

module _ {S X : Type 0} (wire : Wire S) (xacto : Xacto X) (fd : ℕ) where
  abbrev pub begin : (rounds : List Memory) → World S X → X × Option ℕ → Option (Served S X)
  begin rounds w (x, none) = some (ended (unregister fd (record w { xacto = x })) no_transaction)
  begin rounds w (x, some tp) = serve wire xacto fd tp rounds (record w { xacto = x })

  abbrev pub register_then :
      (rounds : List Memory) → World S X → ℤ → Option Registry → Option (Served S X)
  register_then rounds w (pos n) (some r) =
      begin rounds (record w { registry = r }) (xacto.trans_create w.xacto)
  register_then rounds w _ _ = some (ended w not_registered)

  unfoldable pub xacto_client_service : (rounds : List Memory) → World S X → Option (Served S X)
  unfolding serve
  xacto_client_service rounds w =
      let registered = creg_register true (some w.registry) fd in
      register_then rounds w registered.ret registered.registry
