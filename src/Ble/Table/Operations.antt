-- ===== src/Ble/Table/Operations.antt =====
-- Each operation of src/ble_gatt.c keeps the invariant of its slots.
use meshtastic_ble_proxy.Base.{
  ℕ, zero, suc, ◌+◌, ◌≡◌, refl, ◌∙◌, Option, none, some, arith, ◌==◌, leb, length, get_elem?,
  modify, modify-at, All-get_elem?, Option-cases, Bool-cases, inl, inr, Bytes, length-copy_at,
}
use meshtastic_ble_proxy.Nanopb.{Nanopb}
use meshtastic_ble_proxy.Ble.State.{
  Conn, ProxyConn, Ble, ble_at_boot, empty_slot, find_slot, fromradio_queue_depth,
}
use meshtastic_ble_proxy.Ble.Connections.{reset_slot}
use meshtastic_ble_proxy.Ble.Connections.Slots.{find_slot-some}
use meshtastic_ble_proxy.Ble.Queue.{
  count_sent, push_packet, ble_gatt_enqueue_fromradio, broadcast_from, ble_gatt_reply_queuestatus,
  qs_size,
}
use meshtastic_ble_proxy.Ble.Queue.Fifo.{push-IsValidSlot}
use meshtastic_ble_proxy.Ble.Queue.Delivery.{enqueue_cases, push_packet-keeps}
use meshtastic_ble_proxy.Proto.{proto_encode_queue_status, EncodeResult, encoded, encode_failed}
use meshtastic_ble_proxy.Ble.Burst.Parked.{encode_cases}
use meshtastic_ble_proxy.Ble.Burst.Arming.{armed}
use meshtastic_ble_proxy.Ble.Burst.{chosen_nonce, arm, replay_slot, ble_gatt_replay_cached_burst}
use meshtastic_ble_proxy.Ble.Table.{IsSound, IsValidTable, slot-IsSound, modify-IsValidTable}

-- The invariant of the module's state.
abbrev pub IsValidBle : Ble → Type 0
IsValidBle b = IsValidTable b.conns b.active_conn_count

pub reset-IsSound :
    (conn : Option Conn) (pc : ProxyConn) → IsSound pc → IsSound (reset_slot conn pc)
reset-IsSound conn pc w = record {
  buffers = record {
    queue_size = w.buffers.queue_size;
    head_max = omega arith;
    count_max = omega arith;
    tail_at = omega arith;
    packets = w.buffers.packets;
    staged_max = omega arith;
  };
  closing = w.closing;
  identifier = refl;
}

pub at_boot-IsValidBle : IsValidBle ble_at_boot
unfolding find_slot
at_boot-IsValidBle = record {
  size = refl;
  sound = (empty, (empty, (empty, (empty, (empty, (empty, tt))))));
  distinct = λ i pc conn at held.
      let free : pc.conn ≡ none =
        All-get_elem? (λ q. q.conn ≡ none) ble_at_boot.conns i pc
          (refl, (refl, (refl, (refl, (refl, (refl, tt)))))) at in
      absurd (ground arith);
  counted = refl;
}
  where
    empty : IsSound empty_slot
    empty = record {
      buffers = record {
        queue_size = refl;
        head_max = omega arith;
        count_max = omega arith;
        tail_at = refl;
        packets = ground arith;
        staged_max = omega arith;
      };
      closing = refl;
      identifier = refl;
    }

pub enqueue-IsValidBle :
    (b : Ble) (conn : Conn) (pkt : Bytes)
    → IsValidBle b
    → IsValidBle (ble_gatt_enqueue_fromradio b conn pkt).1
unfolding push_packet
enqueue-IsValidBle b conn pkt v = elim (enqueue_cases b conn pkt) [
  | inl (big, e) ↦ rw e v
  | inr (inl (small, missing, e)) ↦ rw e v
  | inr (inr (pc, i, small, at, found, here, e)) ↦
      elim (Bool-cases (leb fromradio_queue_depth pc.count)) [
        | inl full ↦ rw (e, full) v
        | inr room ↦
            let w = slot-IsSound b.conns b.active_conn_count v i pc here in
            rw (e, room)
              (modify-IsValidTable b.conns b.active_conn_count v i (push_packet pkt) pc here
                (push_packet-keeps pkt)
                (record {
                  buffers = push-IsValidSlot pc w.buffers pkt small (ground arith);
                  closing = w.closing;
                  identifier = w.identifier;
                }))
      ]
]

pub broadcast_from-IsValidBle :
    (n : ℕ) (b : Ble) (pkt : Bytes) (i sent : ℕ)
    → IsValidBle b
    → IsValidBle (broadcast_from b pkt i n sent).1
unfolding broadcast_from
broadcast_from-IsValidBle zero b pkt i sent v = v
broadcast_from-IsValidBle (suc n) b pkt i sent v = elim (Option-cases (get_elem? b.conns i)) [
  | inl e ↦ rw (broadcast_from, e) v
  | inr (pc, e) ↦ elim (Option-cases pc.conn) [
    | inl free ↦ rw (broadcast_from, e, free) (broadcast_from-IsValidBle n b pkt (i + 1) sent v)
    | inr (conn, held) ↦
        let (rc, b') = ble_gatt_enqueue_fromradio b conn pkt in
        rw (broadcast_from, e, held)
          (broadcast_from-IsValidBle n b' pkt (i + 1) (count_sent rc sent)
            (enqueue-IsValidBle b conn pkt v))
  ]
]

abbrev named : ℕ → ProxyConn → ProxyConn
named nonce q = record q { nonce = chosen_nonce nonce q }

-- What only names a slot touches no buffer.
renamed : (nonce : ℕ) (pc : ProxyConn) → IsSound pc → IsSound (record pc { nonce = nonce })
renamed nonce pc w = record {
  buffers = record {
    queue_size = w.buffers.queue_size;
    head_max = w.buffers.head_max;
    count_max = w.buffers.count_max;
    tail_at = w.buffers.tail_at;
    packets = w.buffers.packets;
    staged_max = w.buffers.staged_max;
  };
  closing = w.closing;
  identifier = w.identifier;
}

-- A change of a connection's slot, if it has one.
pub change-IsValidBle :
    (b : Ble) (conn : Conn) (f : ProxyConn → ProxyConn)
    → ((q : ProxyConn) → (f q).conn ≡ q.conn)
    → ((q : ProxyConn) → IsSound q → IsSound (f q))
    → IsValidBle b
    → (i : ℕ) → find_slot b.conns conn ≡ some i
    → IsValidBle (record b { conns = modify b.conns i f })
change-IsValidBle b conn f keeps sound v i e =
    let (pc, at, held) = find_slot-some b.conns conn i e in
    let w = slot-IsSound b.conns b.active_conn_count v i pc at in
    modify-IsValidTable b.conns b.active_conn_count v i f pc at keeps (sound pc w)

module _ (pb : Nanopb) where
  arm-IsSound : (bs : Bytes) (nonce : ℕ) (pc : ProxyConn) → IsSound pc → IsSound (armed bs nonce pc)
  unfolding arm
  arm-IsSound bs nonce pc w = record {
    buffers = record {
      queue_size = w.buffers.queue_size;
      head_max = w.buffers.head_max;
      count_max = w.buffers.count_max;
      tail_at = w.buffers.tail_at;
      packets = w.buffers.packets;
      staged_max = w.buffers.staged_max;
    };
    closing = length-copy_at pc.cc_frame 0 bs ∙ w.closing;
    identifier = w.identifier;
  }

  pub replay-IsValidBle :
      (b : Ble) (conn : Conn) (nonce : ℕ)
      → IsValidBle b
      → IsValidBle (ble_gatt_replay_cached_burst pb b conn nonce)
  unfolding ble_gatt_replay_cached_burst arm
  replay-IsValidBle b conn nonce v = elim (Option-cases (find_slot b.conns conn)) [
    | inl e ↦ rw (ble_gatt_replay_cached_burst, e) v
    | inr (i, e) ↦
        let (pc, at, holds) = find_slot-some b.conns conn i e in
        let w = slot-IsSound b.conns b.active_conn_count v i pc at in
        elim (encode_cases pb (chosen_nonce nonce pc)) [
          | inl (e', fails) ↦
              rw (ble_gatt_replay_cached_burst, e, at, replay_slot, fails)
                (rw (modify-at b.conns i (named nonce) pc at) (
                  modify-IsValidTable b.conns b.active_conn_count v i (named nonce) pc at
                    (λ q. refl) (renamed (chosen_nonce nonce pc) pc w)))
          | inr (bs, works) ↦
              rw (ble_gatt_replay_cached_burst, e, at, replay_slot, works)
                (rw (modify-at b.conns i (armed bs nonce) pc at) (
                  modify-IsValidTable b.conns b.active_conn_count v i (armed bs nonce) pc at
                    (λ q. refl) (arm-IsSound bs nonce pc w)))
        ]
  ]

  pub reply-IsValidBle :
      (b : Ble) (conn : Conn) → IsValidBle b → IsValidBle (ble_gatt_reply_queuestatus pb b conn)
  unfolding ble_gatt_reply_queuestatus
  reply-IsValidBle b conn v = elim (Bool-cases (length b.qs == 0)) [
    | inl e ↦ rw (ble_gatt_reply_queuestatus, e) (fresh (proto_encode_queue_status pb qs_size))
    | inr e ↦ rw (ble_gatt_reply_queuestatus, e) (enqueue-IsValidBle b conn b.qs v)
  ]
    where
      fresh :
          (r : EncodeResult)
          → IsValidBle (elim r [
            | encode_failed e ↦ b
            | encoded qs ↦ (ble_gatt_enqueue_fromradio (record b { qs = qs }) conn qs).1
          ])
      fresh (encode_failed e) = v
      fresh (encoded qs) = enqueue-IsValidBle (record b { qs = qs }) conn qs v
