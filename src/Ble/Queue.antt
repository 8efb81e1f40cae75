-- ===== src/Ble/Queue.antt =====
-- The packet queues of src/ble_gatt.c: `ble_gatt_enqueue_fromradio`, its broadcast, and the
-- synthesized queueStatus reply.
pub mod Fifo
pub mod Delivery
pub mod Broadcast
use meshtastic_ble_proxy.Base.{
  ℕ, zero, suc, ◌+◌, ◌%◌, ◌^◌, Bool, true, false, Option, none, some, List, [], ◌∷◌, ltb, leb, ◌==◌,
  if◌then◌else◌, length, get_elem?, modify, set, Bytes, Rc, ok, err, enoent, enomem, emsgsize,
}
use meshtastic_ble_proxy.Nanopb.{Nanopb}
use meshtastic_ble_proxy.Proto.{proto_encode_queue_status, EncodeResult, encoded, encode_failed}
use meshtastic_ble_proxy.Ble.State.{
  Conn, ProxyConn, Ble, Effect, notify_fromnum, emit, find_slot, fromradio_queue_depth,
  fromradio_max_pkt_size, max_ble_connections,
}

-- The stores under the lock, for a queue that is not full.
unfoldable pub push_packet : Bytes → ProxyConn → ProxyConn
push_packet pkt pc = record pc {
  queue = set pc.queue pc.tail pkt;
  tail = (pc.tail + 1) % fromradio_queue_depth;
  count = (pc.count + 1) % 2 ^ 8;
  fromnum = (pc.fromnum + 1) % 2 ^ 32;
}

-- The slot's part, `i` its index and `pc` what stands there.
abbrev pub enqueue_at : Ble → Conn → Bytes → ℕ → ProxyConn → Rc × Ble
enqueue_at b conn pkt i pc = if leb fromradio_queue_depth pc.count then (err enomem, b) else (
  ok,
  emit (notify_fromnum conn ((pc.fromnum + 1) % 2 ^ 32))
      (record b { conns = modify b.conns i (push_packet pkt) }),
)

unfoldable pub ble_gatt_enqueue_fromradio : Ble → Conn → Bytes → Rc × Ble
ble_gatt_enqueue_fromradio b conn pkt =
    if ltb fromradio_max_pkt_size (length pkt)
    then (err emsgsize, b)
    else elim (find_slot b.conns conn) [
      | none ↦ (err enoent, b)
      | some i ↦ elim (get_elem? b.conns i) [
        | none ↦ (err enoent, b)
        | some pc ↦ enqueue_at b conn pkt i pc
      ]
    ]

abbrev pub count_sent : Rc → ℕ → ℕ
count_sent ok sent = sent + 1
count_sent (err e) sent = sent

-- The loop over the slots, `n` rounds from index `i` on.
unfoldable pub broadcast_from : Ble → Bytes → ℕ → ℕ → ℕ → ℕ × Ble
broadcast_from b pkt i zero sent = (sent, b)
broadcast_from b pkt i (suc n) sent = elim (get_elem? b.conns i) [
  | none ↦ (sent, b)
  | some pc ↦ elim pc.conn [
    | none ↦ broadcast_from b pkt (i + 1) n sent
    | some conn ↦
        let (rc, b') = ble_gatt_enqueue_fromradio b conn pkt in
        broadcast_from b' pkt (i + 1) n (count_sent rc sent)
  ]
]

-- The number of phones that were given the packet.
unfoldable pub ble_gatt_broadcast_fromradio : Ble → Bytes → ℕ × Ble
unfolding broadcast_from
ble_gatt_broadcast_fromradio b pkt = broadcast_from b pkt 0 max_ble_connections 0

abbrev pub qs_size : ℕ
qs_size = 16

unfoldable pub ble_gatt_reply_queuestatus : Nanopb → Ble → Conn → Ble
ble_gatt_reply_queuestatus pb b conn =
    if length b.qs == 0
    then elim (proto_encode_queue_status pb qs_size) [
      | encode_failed e ↦ b
      | encoded qs ↦ (ble_gatt_enqueue_fromradio (record b { qs = qs }) conn qs).1
    ]
    else (ble_gatt_enqueue_fromradio b conn b.qs).1
