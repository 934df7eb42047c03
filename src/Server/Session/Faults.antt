-- ===== src/Server/Session/Faults.antt =====
-- Requests on which a service (hw5/src/server.c) frees what it may not.
use cse320_fall.Base.{
  ℕ, ◌≡◌, refl, Bool, true, false, Option, none, some, List, if◌then◌else◌, length, arith, ap, ◌∙◌,
}
use cse320_fall.Server.Blobs.{Key, ◌>>=◌, key_create, key_dispose, blob_unref, blob_create}
use cse320_fall.Server.Packets.{
  Packet, Slot, unset, freed, held, Wire, packet_size, zero_packet, htonl, to_bytes, of_bytes,
  overwrite, proto_recv_packet, recv_payload, success,
}
use cse320_fall.Server.World.{
  TransStatus, Xacto, World, receive, received, to_host, bytes_of, free_slot, created, unref_value,
  value_content, is_aborted, send_reply_packet,
}
use cse320_fall.Server.Session.{put_stored, put_value, serve_put, get_stored, serve_get}

bind_none {ℓ κ} :
    {A : Type ℓ} {B : Type κ} (o : Option A) (f : A → Option B)
    → ((a : A) → f a ≡ none)
    → (o >>= f) ≡ none
bind_none none f e = refl
bind_none (some a) f e = e a

if_same {ℓ} : {A : Type ℓ} (b : Bool) (x y z : A) → x ≡ z → y ≡ z → (if b then x else y) ≡ z
if_same true x y z e f = e
if_same false x y z e f = f

module _ {S : Type 0} (wire : Wire S) where
  proto_recv_packet_empty :
      (s0 : S) (slot : Slot) (s : S) (bytes : List ℕ)
      → wire.readn s0 packet_size ≡ (s, some bytes)
      → length bytes ≡ packet_size
      → (of_bytes (overwrite (to_bytes zero_packet) bytes)).size ≡ 0
      → proto_recv_packet wire true s0 zero_packet slot
        ≡ (s, success, of_bytes (overwrite (to_bytes zero_packet) bytes), slot)
  unfolding proto_recv_packet recv_payload
  proto_recv_packet_empty s0 slot s bytes e l z =
      let none_left : htonl (of_bytes (overwrite (to_bytes zero_packet) bytes)).size ≡ 0 =
        ap htonl z ∙ (unfold htonl in refl) in
      ground (arith, none_left)

module _ {S X : Type 0} (wire : Wire S) where
  -- A packet that says that it has no payload is received without a change of `*datap`.
  receive_empty :
      (w : World S X) (slot : Slot) (s : S) (bytes : List ℕ)
      → wire.readn w.wire packet_size ≡ (s, some bytes)
      → length bytes ≡ packet_size
      → (of_bytes (overwrite (to_bytes zero_packet) bytes)).size ≡ 0
      → receive wire true w slot ≡ (
        record w { wire = s },
        some (to_host (of_bytes (overwrite (to_bytes zero_packet) bytes)), slot),
      )
  unfolding receive
  receive_empty w slot s bytes e l z =
      ap (received w) (proto_recv_packet_empty wire w.wire slot s bytes e l z)

  module _ (xacto : Xacto X) (fd tp : ℕ) where
    put_stored_freed :
        (w : World S X) (pkt : Packet) (slot : Slot) (key : Key) (tmp_blob value : ℕ)
        (st : TransStatus)
        → free_slot slot ≡ none
        → put_stored wire xacto fd tp w pkt slot key tmp_blob value st ≡ none
    unfolding put_stored
    put_stored_freed w pkt slot key tmp_blob value st f =
        if_same (is_aborted st) _ _ none
          (bind_none (key_dispose w.blobs key) _ λ bs1.
            bind_none (blob_unref bs1 tmp_blob) _
              λ bs2. bind_none (blob_unref bs2 value) _ λ bs3. rw f refl)
          (bind_none (blob_unref (send_reply_packet wire w pkt st).blobs value) _
            λ bs1. bind_none (blob_unref bs1 tmp_blob) _ λ bs2. rw f refl)

    get_stored_freed :
        (w : World S X) (pkt : Packet) (slot : Slot) (tmp_blob : ℕ) (value : Option ℕ)
        (st : TransStatus)
        → free_slot slot ≡ none
        → get_stored wire xacto fd tp w pkt slot tmp_blob value st ≡ none
    unfolding get_stored
    get_stored_freed w pkt slot tmp_blob value st f =
        if_same (is_aborted st) _ _ none
          (bind_none (blob_unref w.blobs tmp_blob) _
            λ bs1. bind_none value _ λ v. bind_none (blob_unref bs1 v) _ λ bs2. rw f refl)
          (bind_none (unref_value (send_reply_packet wire w pkt st).blobs value) _ λ bs1.
            bind_none (value_content bs1 value) _ λ c.
              bind_none (blob_unref bs1 tmp_blob) _
                λ bs2. bind_none (unref_value bs2 value) _ λ bs3. rw f refl)

    -- A PUT whose key has come with a payload and whose value's packet says that it has no payload
    -- ends in a fault, whatever the store answers: `*datap` still points to the key's payload, which
    -- has been freed, and is freed again.
    pub serve_put_empty :
        (w w1 : World S X) (pkt : Packet) (slot : Slot) (key_bytes bytes : List ℕ) (s : S)
        → receive wire true w slot ≡ (w1, some (pkt, held key_bytes))
        → wire.readn w1.wire packet_size ≡ (s, some bytes)
        → length bytes ≡ packet_size
        → (of_bytes (overwrite (to_bytes zero_packet) bytes)).size ≡ 0
        → serve_put wire xacto fd tp true true w slot ≡ none
    unfolding serve_put put_value
    serve_put_empty w w1 pkt slot key_bytes bytes s e r l z =
        rw (e, serve_put)
          (bind_none (created (blob_create true true w1.blobs (bytes_of (held key_bytes)) pkt.size))
            _
            λ v. bind_none (key_create v.0 v.1) _ λ k.
              rw (receive_empty (record w1 { blobs = k.0 }) freed s bytes r l z, put_value)
                (bind_none (created (blob_create true true k.0 (bytes_of freed) _)) _
                  λ b. put_stored_freed _ _ freed k.1 v.1 b.1 _ refl))

    -- A GET whose key's packet says that it has no payload, after a request without one, ends in a
    -- fault, whatever the store answers: `*datap` has never been set, and is freed.
    pub serve_get_empty :
        (w : World S X) (bytes : List ℕ) (s : S)
        → wire.readn w.wire packet_size ≡ (s, some bytes)
        → length bytes ≡ packet_size
        → (of_bytes (overwrite (to_bytes zero_packet) bytes)).size ≡ 0
        → serve_get wire xacto fd tp true w unset ≡ none
    unfolding serve_get
    serve_get_empty w bytes s r l z =
        rw (receive_empty w unset s bytes r l z, serve_get)
          (bind_none (created (blob_create true true w.blobs (bytes_of unset) _)) _
            λ v. bind_none (key_create v.0 v.1) _ λ k. get_stored_freed _ _ unset v.1 _ _ refl)
