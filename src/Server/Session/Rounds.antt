-- ===== src/Server/Session/Rounds.antt =====
-- What a round of a service (hw5/src/server.c) leaves of the registry and of the connection.
use cse320_fall.Base.{
  ℕ, ◌≡◌, refl, Bool, true, false, ◌&&◌, Option, List, none, some, ◌==◌, if◌then◌else◌, Bool-cases,
  inl, inr, ◌∙◌,
}
use cse320_fall.Registry.{Registry}
use cse320_fall.Server.Blobs.{Key, ◌>>=◌, key_create, key_dispose, blob_unref, blob_create}
use cse320_fall.Server.Packets.{
  Packet, Slot, unset, Wire, packet_size, zero_packet, xacto_put_pkt, xacto_get_pkt,
  xacto_commit_pkt,
}
use cse320_fall.Server.Packets.Kept.{
  IsKept, proto_send_packet-IsKept, proto_recv_packet-IsKept, proto_recv_packet-after,
}
use cse320_fall.Server.World.{
  TransStatus, Xacto, World, Served, goes_on, ended, without_client, receive, send_reply_packet,
  send_value_packet, created, bytes_of, free_slot, unref_value, value_content, after_receive,
  is_aborted,
}
use cse320_fall.Server.Session.{
  put_stored, put_value, serve_put, get_stored, serve_get, serve_commit, dispatch, Memory,
  serve_round, round_with,
}

module _ {S X : Type 0} where
  -- What holds of the world where the service goes on, and where it has ended.
  abbrev pub Leaves : (goes has_ended : World S X → Type 0) → Option (Served S X) → Type 0
  Leaves goes has_ended none = Unit
  Leaves goes has_ended (some (goes_on w)) = goes w
  Leaves goes has_ended (some (ended w how)) = has_ended w

  bind-Leaves :
      {A : Type 0} (goes has_ended : World S X → Type 0) (o : Option A)
      (f : A → Option (Served S X))
      → ((a : A) → Leaves goes has_ended (f a))
      → Leaves goes has_ended (o >>= f)
  bind-Leaves goes has_ended none f k = tt
  bind-Leaves goes has_ended (some a) f k = k a

  after_receive-Leaves :
      (goes has_ended : World S X → Type 0) (o : Option (Packet × Slot))
      (failed : Option (Served S X)) (f : Packet → Slot → Option (Served S X))
      → Leaves goes has_ended failed
      → ((pkt : Packet) (slot : Slot) → Leaves goes has_ended (f pkt slot))
      → Leaves goes has_ended (after_receive o failed f)
  after_receive-Leaves goes has_ended none failed f l k = l
  after_receive-Leaves goes has_ended (some (pkt, slot)) failed f l k = k pkt slot

  -- The registry is as it was while the service goes on, and the connection is in one of some
  -- states; where the service has ended, the client is out of the registry.
  abbrev pub Keeps : ℕ → Registry → (S → Type 0) → Option (Served S X) → Type 0
  Keeps fd r P = Leaves (λ w. (w.registry ≡ r) × P w.wire) (λ w. w.registry ≡ without_client fd r)

module _ {S X : Type 0} (wire : Wire S) (xacto : Xacto X) (fd tp : ℕ) (P : S → Type 0)
    (kept : IsKept wire P) where
  replied :
      (w : World S X) (pkt : Packet) (st : TransStatus)
      → P w.wire
      → P (send_reply_packet wire w pkt st).wire
  unfolding send_reply_packet
  replied w pkt st p = proto_send_packet-IsKept wire P kept w.wire _ _ p

  sent_registry :
      (w : World S X) (pkt : Packet) (st : TransStatus)
      → (send_reply_packet wire w pkt st).registry ≡ w.registry
  unfolding send_reply_packet
  sent_registry w pkt st = refl

  told_registry :
      (w : World S X) (pkt : Packet) (c : Option (List ℕ)) (n : ℕ) (st : TransStatus)
      → (send_value_packet wire w pkt c n st).registry ≡ w.registry
  unfolding send_value_packet
  told_registry w pkt c n st = refl

  told :
      (w : World S X) (pkt : Packet) (c : Option (List ℕ)) (n : ℕ) (st : TransStatus)
      → P w.wire
      → P (send_value_packet wire w pkt c n st).wire
  unfolding send_value_packet
  told w pkt c n st p = proto_send_packet-IsKept wire P kept w.wire _ _ p

  received_wire :
      (allocated : Bool) (w : World S X) (slot : Slot)
      → P w.wire
      → P (receive wire allocated w slot).0.wire
  unfolding receive
  received_wire allocated w slot p =
      proto_recv_packet-IsKept wire P kept allocated w.wire zero_packet slot p

  abbrev Goes : Registry → World S X → Type 0
  Goes r w = (w.registry ≡ r) × P w.wire

  abbrev Gone : Registry → World S X → Type 0
  Gone r w = w.registry ≡ without_client fd r

  then_Keeps :
      {A : Type 0} (r : Registry) (o : Option A) (f : A → Option (Served S X))
      → ((a : A) → Keeps fd r P (f a))
      → Keeps fd r P (o >>= f)
  then_Keeps r o f k = bind-Leaves (Goes r) (Gone r) o f k

  then_received :
      (r : Registry) (o : Option (Packet × Slot)) (failed : Option (Served S X))
      (f : Packet → Slot → Option (Served S X))
      → Keeps fd r P failed
      → ((pkt : Packet) (slot : Slot) → Keeps fd r P (f pkt slot))
      → Keeps fd r P (after_receive o failed f)
  then_received r o failed f l k = after_receive-Leaves (Goes r) (Gone r) o failed f l k

  either_Keeps :
      (r : Registry) (b : Bool) (x y : Option (Served S X))
      → Keeps fd r P x
      → Keeps fd r P y
      → Keeps fd r P (if b then x else y)
  either_Keeps r true x y k l = k
  either_Keeps r false x y k l = l

  put_stored-Keeps :
      (w : World S X) (pkt : Packet) (slot : Slot) (key : Key) (tmp_blob value : ℕ)
      (st : TransStatus)
      → P w.wire
      → Keeps fd w.registry P (put_stored wire xacto fd tp w pkt slot key tmp_blob value st)
  unfolding put_stored
  put_stored-Keeps w pkt slot key tmp_blob value st p =
      let r = w.registry in
      either_Keeps r (is_aborted st) _ _
        (then_Keeps r (key_dispose w.blobs key) _ λ bs1.
          then_Keeps r (blob_unref bs1 tmp_blob) _ λ bs2.
            then_Keeps r (blob_unref bs2 value) _ λ bs3. then_Keeps r (free_slot slot) _ λ s. refl)
        (then_Keeps r (blob_unref (send_reply_packet wire w pkt st).blobs value) _ λ bs1.
          then_Keeps r (blob_unref bs1 tmp_blob) _ λ bs2.
            then_Keeps r (free_slot slot) _ λ s. (sent_registry w pkt st, replied w pkt st p))

  put_value-Keeps :
      (allocated : Bool) (w : World S X) (slot : Slot) (key : Key) (tmp_blob : ℕ)
      → P w.wire
      → Keeps fd w.registry P (put_value wire xacto fd tp allocated w slot key tmp_blob)
  unfolding put_value receive
  put_value-Keeps allocated w slot key tmp_blob p =
      let r = w.registry in
      then_received r (receive wire allocated w slot).1 _ _
        (then_Keeps r (key_dispose w.blobs key) _
          λ bs1. then_Keeps r (blob_unref bs1 tmp_blob) _ λ bs2. refl)
        λ pkt slot1.
          then_Keeps r (created (blob_create true true w.blobs (bytes_of slot1) pkt.size)) _
            λ v. put_stored-Keeps _ pkt slot1 key tmp_blob v.1 _ (received_wire allocated w slot p)

  serve_put-Keeps :
      (key_allocated allocated : Bool) (w : World S X) (slot : Slot)
      → P w.wire
      → Keeps fd w.registry P (serve_put wire xacto fd tp key_allocated allocated w slot)
  unfolding serve_put receive
  serve_put-Keeps key_allocated allocated w slot p =
      let r = w.registry in
      then_received r (receive wire key_allocated w slot).1 _ _ refl λ pkt slot1.
        then_Keeps r (created (blob_create true true w.blobs (bytes_of slot1) pkt.size)) _ λ v.
          then_Keeps r (key_create v.0 v.1) _ λ k. then_Keeps r (free_slot slot1) _ λ slot2.
            put_value-Keeps allocated _ slot2 k.1 v.1 (received_wire key_allocated w slot p)

  get_stored-Keeps :
      (w : World S X) (pkt : Packet) (slot : Slot) (tmp_blob : ℕ) (value : Option ℕ)
      (st : TransStatus)
      → P w.wire
      → Keeps fd w.registry P (get_stored wire xacto fd tp w pkt slot tmp_blob value st)
  unfolding get_stored
  get_stored-Keeps w pkt slot tmp_blob value st p =
      let r = w.registry in
      let w1 = send_reply_packet wire w pkt st in
      either_Keeps r (is_aborted st) _ _
        (then_Keeps r (blob_unref w.blobs tmp_blob) _ λ bs1.
          then_Keeps r value _
            λ v. then_Keeps r (blob_unref bs1 v) _ λ bs2. then_Keeps r (free_slot slot) _ λ s. refl)
        (then_Keeps r (unref_value w1.blobs value) _ λ bs1.
          then_Keeps r (value_content bs1 value) _ λ c.
            then_Keeps r (blob_unref bs1 tmp_blob) _ λ bs2.
              then_Keeps r (unref_value bs2 value) _ λ bs3. then_Keeps r (free_slot slot) _ λ s. (
                told_registry w1 pkt c.0 c.1 st ∙ sent_registry w pkt st,
                told w1 pkt c.0 c.1 st (replied w pkt st p),
              ))

  serve_get-Keeps :
      (allocated : Bool) (w : World S X) (slot : Slot)
      → P w.wire
      → Keeps fd w.registry P (serve_get wire xacto fd tp allocated w slot)
  unfolding serve_get receive
  serve_get-Keeps allocated w slot p =
      let r = w.registry in
      then_received r (receive wire allocated w slot).1 _ _ refl λ pkt slot1.
        then_Keeps r (created (blob_create true true w.blobs (bytes_of slot1) pkt.size)) _ λ v.
          then_Keeps r (key_create v.0 v.1) _
            λ k. get_stored-Keeps _ pkt slot1 v.1 _ _ (received_wire allocated w slot p)

  serve_commit-Keeps :
      (w : World S X) (pkt : Packet)
      → Keeps fd w.registry P (some (serve_commit wire xacto fd tp w pkt))
  unfolding serve_commit send_reply_packet
  serve_commit-Keeps w pkt =
      elim (Bool-cases (is_aborted (xacto.trans_commit w.xacto w.blobs tp).2)) [
        | inl e ↦ rw (e, serve_commit) refl
        | inr e ↦ rw (e, serve_commit) refl
      ]

  dispatch-Keeps :
      (key_allocated value_allocated : Bool) (w : World S X) (pkt : Packet) (slot : Slot)
      → P w.wire
      → Keeps fd w.registry P (dispatch wire xacto fd tp key_allocated value_allocated w pkt slot)
  unfolding dispatch
  dispatch-Keeps ka va w pkt slot p =
      let r = w.registry in
      either_Keeps r (pkt.type == xacto_put_pkt) _ _ (serve_put-Keeps ka va w slot p) (
        either_Keeps r (pkt.type == xacto_get_pkt) _ _ (serve_get-Keeps ka w slot p)
          (either_Keeps r (pkt.type == xacto_commit_pkt) _ _ (serve_commit-Keeps w pkt) (refl, p)))

  serve_round-Keeps :
      (ra ka va : Bool) (w : World S X)
      → P (wire.readn w.wire packet_size).0
      → Keeps fd w.registry P (serve_round wire xacto fd tp ra ka va w)
  unfolding serve_round receive
  serve_round-Keeps ra ka va w p =
      then_received w.registry (receive wire ra w unset).1 _ _ refl λ pkt slot.
        dispatch-Keeps ka va _ pkt slot
          (proto_recv_packet-after wire P kept ra w.wire zero_packet unset p)

  pub round_with-Keeps :
      (m : Memory) (w : World S X)
      → P (wire.readn w.wire packet_size).0
      → Keeps fd w.registry P (round_with wire xacto fd tp m w)
  unfolding round_with
  round_with-Keeps m w p =
      either_Keeps w.registry (m.packet && m.datap) _ _
        (serve_round-Keeps m.request m.key m.value w p) refl
