-- ===== src/Ble/Queue/Delivery.antt =====
-- `ble_gatt_enqueue_fromradio` of src/ble_gatt.c: who is given a packet, and what is left alone.
use mathlib.Core.Option
use meshtastic_ble_proxy.Base.{
  ℕ, ◌+◌, ◌%◌, ◌^◌, ◌≤◌, ◌<◌, ◌≡◌, ◌≢◌, refl, ap, ◌∙◌, none, some, [], ◌∷◌, ◌++◌, arith, ltb, leb,
  if◌then◌else◌, length, get_elem?, modify, Bytes, Bool-cases, inl, inr, ◌⊎◌, Option-cases, ok, err,
  enoent, enomem, emsgsize,
}
use meshtastic_ble_proxy.Ble.State.{
  Conn, ProxyConn, Ble, notify_fromnum, emit, find_slot, fromradio_queue_depth,
}
use meshtastic_ble_proxy.Ble.Connections.Slots.{
  slot_of, slot_of-modify_self, slot_of-modify_ne, find_slot-some,
}
use meshtastic_ble_proxy.Ble.Queue.{push_packet, ble_gatt_enqueue_fromradio}
use meshtastic_ble_proxy.Ble.Queue.Fifo.{IsValidSlot, IsPacket, waiting, waiting-push}

pub push_packet-keeps : (pkt : Bytes) (pc : ProxyConn) → (push_packet pkt pc).conn ≡ pc.conn
unfolding push_packet
push_packet-keeps pkt pc = refl

-- The state after a packet was queued for a connection.
abbrev pub queued : Ble → Conn → Bytes → ℕ → ProxyConn → Ble
queued b conn pkt i pc =
    emit (notify_fromnum conn ((pc.fromnum + 1) % 2 ^ 32))
      (record b { conns = modify b.conns i (push_packet pkt) })

-- All four answers of the function, by their conditions; an error changes nothing.
pub enqueue_cases :
    (b : Ble) (conn : Conn) (pkt : Bytes)
    → ((512 < length pkt) × (ble_gatt_enqueue_fromradio b conn pkt ≡ (err emsgsize, b)))
      ⊎ (((length pkt ≤ 512)
            × (slot_of b.conns conn ≡ none)
            × (ble_gatt_enqueue_fromradio b conn pkt ≡ (err enoent, b)))
          ⊎ ((pc : ProxyConn) × (i : ℕ) × (length pkt ≤ 512)
              × (slot_of b.conns conn ≡ some pc)
              × (find_slot b.conns conn ≡ some i)
              × (get_elem? b.conns i ≡ some pc)
              × (ble_gatt_enqueue_fromradio b conn pkt ≡ (
                  if leb fromradio_queue_depth pc.count
                  then (err enomem, b)
                  else (ok, queued b conn pkt i pc)))))
unfolding ble_gatt_enqueue_fromradio
enqueue_cases b conn pkt = elim (Bool-cases (ltb 512 (length pkt))) [
  | inl big ↦ inl (ground arith, ground arith)
  | inr small ↦ inr (elim (Option-cases (find_slot b.conns conn)) [
    | inl e ↦ inl (ground arith, ground arith, ground arith)
    | inr (i, e) ↦
        let (pc, at, holds) = find_slot-some b.conns conn i e in
        inr (pc, i, ground arith, ground arith, e, at, ground arith)
  ])
]

pub enqueue_room :
    (b : Ble) (conn : Conn) (pkt : Bytes) (pc : ProxyConn)
    → slot_of b.conns conn ≡ some pc
    → IsPacket pkt
    → pc.count < fromradio_queue_depth
    → (i : ℕ) × (find_slot b.conns conn ≡ some i)
      × (ble_gatt_enqueue_fromradio b conn pkt ≡ (ok, queued b conn pkt i pc))
enqueue_room b conn pkt pc at small room = elim (enqueue_cases b conn pkt) [
  | inl (big, e) ↦ absurd (omega arith)
  | inr (inl (_, missing, e)) ↦ absurd (cc)
  | inr (inr (pc', i, _, at', found, here, e)) ↦
      let same : pc' ≡ pc = cc in (i, found, rw same at e ∙ ground arith)
]

pub enqueue_full :
    (b : Ble) (conn : Conn) (pkt : Bytes) (pc : ProxyConn)
    → slot_of b.conns conn ≡ some pc
    → IsPacket pkt
    → fromradio_queue_depth ≤ pc.count
    → ble_gatt_enqueue_fromradio b conn pkt ≡ (err enomem, b)
enqueue_full b conn pkt pc at small full = elim (enqueue_cases b conn pkt) [
  | inl (big, e) ↦ absurd (omega arith)
  | inr (inl (_, missing, e)) ↦ absurd (cc)
  | inr (inr (pc', i, _, at', found, here, e)) ↦
      let same : pc' ≡ pc = cc in rw same at e ∙ ground arith
]

-- A packet of at most 512 bytes for a phone with fewer than eight waiting is queued behind them,
-- the phone's counter goes up by one and the phone is notified of it, and no other phone's slot
-- changes.
pub enqueue-delivers :
    (b : Ble) (conn : Conn) (pkt : Bytes) (pc : ProxyConn)
    → IsValidSlot pc
    → slot_of b.conns conn ≡ some pc
    → IsPacket pkt
    → pc.count < fromradio_queue_depth
    → let (rc, b') = ble_gatt_enqueue_fromradio b conn pkt in
      (pc' : ProxyConn) × (rc ≡ ok)
      × (slot_of b'.conns conn ≡ some pc')
      × (waiting pc' ≡ waiting pc ++ pkt ∷ [])
      × (pc'.fromnum ≡ (pc.fromnum + 1) % 2 ^ 32)
      × (b'.effects ≡ notify_fromnum conn pc'.fromnum ∷ b.effects)
      × ((other : Conn) → other ≢ conn → slot_of b'.conns other ≡ slot_of b.conns other)
unfolding push_packet
enqueue-delivers b conn pkt pc v at small room =
    let (i, found, e) = enqueue_room b conn pkt pc at small room in
    rw e (
      push_packet pkt pc,
      refl,
      slot_of-modify_self b.conns conn i (push_packet pkt) found (push_packet-keeps pkt)
          ∙ ap (Option.map (push_packet pkt)) at,
      waiting-push pc v pkt room,
      refl,
      refl,
      slot_of-modify_ne b.conns conn i (push_packet pkt) found (push_packet-keeps pkt),
    )
