-- ===== src/Ble/Reads/Stream/Events.antt =====
-- One event of the stream: a packet queued in src/ble_gatt.c, or a read, for this phone or another.
use mathlib.Core.Option
use meshtastic_ble_proxy.Base.{
  ℕ, zero, suc, ◌+◌, ◌%◌, ◌<◌, ◌≡◌, ◌≢◌, refl, sym, ap, ◌∙◌, Option, some, [], ◌∷◌, arith, ◌==◌,
  leb, if◌then◌else◌, get_or, Bytes, All-get_or, Bool-cases, Option-cases, inl, inr, append-nil,
  ==_refl,
}
use meshtastic_ble_proxy.Nanopb.{Tags}
use meshtastic_ble_proxy.ConfigCache.{Cache}
use meshtastic_ble_proxy.Ble.State.{Conn, ProxyConn, Ble, find_slot, fromradio_queue_depth}
use meshtastic_ble_proxy.Ble.Connections.Slots.{
  slot_of, find_slot-some, slot_of-modify_self, slot_of-modify_ne,
}
use meshtastic_ble_proxy.Ble.Queue.{push_packet, ble_gatt_enqueue_fromradio}
use meshtastic_ble_proxy.Ble.Queue.Fifo.{
  IsPacket, IsValidSlot, waiting, waiting-push, push-IsValidSlot,
}
use meshtastic_ble_proxy.Ble.Queue.Delivery.{enqueue_cases, push_packet-keeps}
use meshtastic_ble_proxy.Ble.Reads.{stage, fromradio_read}
use meshtastic_ble_proxy.Ble.Reads.Drain.{stage-pop, stage-empty}
use meshtastic_ble_proxy.Ble.Reads.Long.{Between, queue, read, between}
use meshtastic_ble_proxy.Ble.Reads.Long.Staged.{refreshed, refreshed-keeps, read_slot}
use meshtastic_ble_proxy.Ble.Reads.Stream.{
  filled, is_ok, IsLive, accepted, staged_list, served, Balances, unchanged,
}

module _ (tags : Tags) (cache : Cache) where
  popped-IsValidSlot :
      (pc : ProxyConn) (n : ℕ)
      → IsValidSlot pc
      → pc.count ≡ suc n
      → IsValidSlot (record pc {
        staged = get_or pc.queue pc.head [];
        head = (pc.head + 1) % fromradio_queue_depth;
        count = n;
      })
  popped-IsValidSlot pc n v e = record {
    queue_size = v.queue_size;
    head_max = omega arith;
    count_max = omega (arith, v.count_max);
    tail_at = omega (arith, v.tail_at, v.head_max);
    packets = v.packets;
    staged_max = All-get_or IsPacket pc.queue pc.head [] v.packets (omega arith);
  }

  -- A fresh read takes the oldest packet.
  stage-IsLive :
      (n : ℕ) (pc : ProxyConn)
      → IsLive pc
      → pc.count ≡ n
      → let q = stage tags cache pc in
        IsLive q × (filled (waiting pc) ≡ filled (q.staged ∷ waiting q)) × (q.fromnum ≡ pc.fromnum)
  stage-IsLive zero pc w e =
      let none_wait : waiting pc ≡ [] = rw e in
      let v = w.valid in
      let drained : IsValidSlot (record pc { staged = [] }) = record {
        queue_size = v.queue_size;
        head_max = v.head_max;
        count_max = v.count_max;
        tail_at = v.tail_at;
        packets = v.packets;
        staged_max = omega arith;
      } in
      rw (stage-empty tags cache pc w.not_replaying e)
        (record { valid = drained; not_replaying = w.not_replaying }, refl, refl)
  stage-IsLive (suc n) pc w e =
      let v = popped-IsValidSlot pc n w.valid e in
      rw (stage-pop tags cache pc n w.not_replaying e)
        (record { valid = v; not_replaying = w.not_replaying }, rw e, refl)

queue_elsewhere :
    (b : Ble) (c : Conn) (pkt : Bytes) (conn : Conn)
    → conn ≢ c
    → slot_of (ble_gatt_enqueue_fromradio b c pkt).1.conns conn ≡ slot_of b.conns conn
queue_elsewhere b c pkt conn ne = elim (enqueue_cases b c pkt) [
  | inl (_, e) ↦ rw e
  | inr (inl (_, _, e)) ↦ rw e
  | inr (inr (pc, i, _, at, found, _, e)) ↦ elim (Bool-cases (leb 8 pc.count)) [
    | inl full ↦ rw (e, full)
    | inr room ↦
        rw (e, room)
          (slot_of-modify_ne b.conns c i (push_packet pkt) found (push_packet-keeps pkt) conn ne)
  ]
]

queue_here :
    (conn : Conn) (b : Ble) (pkt : Bytes) (pc : ProxyConn)
    → slot_of b.conns conn ≡ some pc
    → IsLive pc
    → let (rc, b') = ble_gatt_enqueue_fromradio b conn pkt in
      Balances conn b'.conns pc (if is_ok rc then pkt ∷ [] else []) []
unfolding push_packet
queue_here conn b pkt pc at w = elim (enqueue_cases b conn pkt) [
  | inl (_, e) ↦ rw e (unchanged conn b.conns pc at w)
  | inr (inl (_, missing, e)) ↦ absurd (cc)
  | inr (inr (pc', i, small, at', found, _, e)) ↦
      let same : pc' ≡ pc = cc in
      elim (Bool-cases (leb 8 pc.count)) [
        | inl full ↦ rw (e, same, full) (unchanged conn b.conns pc at w)
        | inr room ↦
            let less : pc.count < 8 = ground arith in
            let there =
              slot_of-modify_self b.conns conn i (push_packet pkt) found (push_packet-keeps pkt)
              ∙ ap (Option.map (push_packet pkt)) at in
            rw (e, same, room)
              (
                push_packet pkt pc,
                there,
                record {
                  valid = push-IsValidSlot pc w.valid pkt small less;
                  not_replaying = w.not_replaying;
                },
                ap filled (sym (waiting-push pc w.valid pkt less)),
                omega arith,
              )
      ]
]

queue-Balances :
    (conn : Conn) (b : Ble) (c : Conn) (pkt : Bytes) (pc : ProxyConn)
    → slot_of b.conns conn ≡ some pc
    → IsLive pc
    → Balances conn
        (ble_gatt_enqueue_fromradio b c pkt).1.conns
        pc
        (accepted conn b (queue c pkt))
        []
queue-Balances conn b c pkt pc at w = elim (Bool-cases (c == conn)) [
  | inl here ↦
      let one : c ≡ conn = ground arith in rw (one, ==_refl conn) (queue_here conn b pkt pc at w)
  | inr other ↦
      let there = queue_elsewhere b c pkt conn (ground arith) ∙ at in
      rw other (unchanged conn (ble_gatt_enqueue_fromradio b c pkt).1.conns pc there w)
]

module _ (attr_read : Bytes → ℕ → ℕ → Option Bytes) (tags : Tags) (cache : Cache) where
  read_elsewhere :
      (b : Ble) (c : Conn) (len offset : ℕ) (conn : Conn)
      → conn ≢ c
      → slot_of (fromradio_read attr_read tags cache b c len offset).1.conns conn
        ≡ slot_of b.conns conn
  unfolding fromradio_read
  read_elsewhere b c len offset conn ne = elim (Option-cases (find_slot b.conns c)) [
    | inl e ↦ rw (fromradio_read, e)
    | inr (j, e') ↦
        let (pc, here, _) = find_slot-some b.conns c j e' in
        let at : slot_of b.conns c ≡ some pc = ground arith in
        let (i, found, e) = read_slot attr_read tags cache b c len offset pc at in
        rw e (
          slot_of-modify_ne b.conns c i (refreshed attr_read tags cache offset) found
            (refreshed-keeps attr_read tags cache offset) conn ne)
  ]

  read_here :
      (conn : Conn) (b : Ble) (len offset : ℕ) (pc : ProxyConn)
      → slot_of b.conns conn ≡ some pc
      → IsLive pc
      → let b' = (fromradio_read attr_read tags cache b conn len offset).1 in
        Balances conn b'.conns pc []
          (if offset == 0 then staged_list (slot_of b'.conns conn) else [])
  unfolding refreshed
  read_here conn b len offset pc at w =
      let (i, found, e) = read_slot attr_read tags cache b conn len offset pc at in
      let b' = (fromradio_read attr_read tags cache b conn len offset).1 in
      let there : slot_of b'.conns conn ≡ some (refreshed attr_read tags cache offset pc) = rw e (
        slot_of-modify_self b.conns conn i (refreshed attr_read tags cache offset) found
          (refreshed-keeps attr_read tags cache offset)
        ∙ ap (Option.map (refreshed attr_read tags cache offset)) at) in
      elim (Bool-cases (offset == 0)) [
        | inl fresh ↦
            let q = stage tags cache pc in
            let (live, order, counter) = stage-IsLive tags cache pc.count pc w refl in
            let slot : slot_of b'.conns conn ≡ some q = there ∙ rw fresh in
            rw (fresh, slot)
              (q, refl, live, ap filled (append-nil (waiting pc)) ∙ order, omega (arith, counter))
        | inr later ↦
            let slot : slot_of b'.conns conn ≡ some pc = there ∙ rw later in
            rw later (unchanged conn b'.conns pc slot w)
      ]

  read-Balances :
      (conn : Conn) (b : Ble) (c : Conn) (len offset : ℕ) (pc : ProxyConn)
      → slot_of b.conns conn ≡ some pc
      → IsLive pc
      → Balances conn
          (fromradio_read attr_read tags cache b c len offset).1.conns
          pc
          []
          (served attr_read tags cache conn b (read c len offset))
  read-Balances conn b c len offset pc at w = elim (Bool-cases (c == conn)) [
    | inl here ↦
        let one : c ≡ conn = ground arith in
        rw (one, ==_refl conn) (read_here conn b len offset pc at w)
    | inr other ↦
        let there = read_elsewhere b c len offset conn (ground arith) ∙ at in
        rw other
          (unchanged conn (fromradio_read attr_read tags cache b c len offset).1.conns pc there w)
  ]

  -- One event.
  pub between-Balances :
      (conn : Conn) (b : Ble) (e : Between) (pc : ProxyConn)
      → slot_of b.conns conn ≡ some pc
      → IsLive pc
      → Balances conn
          (between attr_read tags cache b e).conns
          pc
          (accepted conn b e)
          (served attr_read tags cache conn b e)
  unfolding between
  between-Balances conn b (queue c pkt) pc at w = queue-Balances conn b c pkt pc at w
  between-Balances conn b (read c len offset) pc at w = read-Balances conn b c len offset pc at w
