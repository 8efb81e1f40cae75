-- ===== src/Ble/Table/Parked.antt =====
-- Predicates of slots that only parking can break: what of src/ble_gatt.c keeps them.
use meshtastic_ble_proxy.Base.{
  ℕ, zero, suc, ◌+◌, ◌≡◌, ◌≢◌, refl, Bool, true, false, not, ◌||◌, Option, none, some, arith, ◌==◌,
  leb, ltb, length, get_elem?, modify, All, All-modify, All-get_elem?, List, ◌%◌, ◌^◌, find_index?,
  Option-cases, Bool-cases, inl, inr, ◌⊎◌, Bytes, Rc,
}
use meshtastic_ble_proxy.Nanopb.{Nanopb, Tags}
use meshtastic_ble_proxy.ConfigCache.{Cache}
use meshtastic_ble_proxy.ProxyProtocol.{proxy_id_size}
use meshtastic_ble_proxy.Ble.State.{
  Conn, pending, active, ProxyConn, Ble, is_free, find_slot, fromradio_queue_depth,
  max_ble_connections,
}
use meshtastic_ble_proxy.Ble.Connections.{
  reset_slot, alloc_slot, free_slot, on_connected, on_disconnected, drop_conn,
  ble_gatt_start_advertising, ble_gatt_register_proxy_id, node_reg_write,
}
use meshtastic_ble_proxy.Ble.Connections.Slots.{find_slot-some}
use meshtastic_ble_proxy.Ble.Queue.{
  count_sent, push_packet, ble_gatt_enqueue_fromradio, broadcast_from, ble_gatt_reply_queuestatus,
  qs_size,
}
use meshtastic_ble_proxy.Ble.Queue.Delivery.{enqueue_cases}
use meshtastic_ble_proxy.Proto.{proto_encode_queue_status, EncodeResult, encoded, encode_failed}
use meshtastic_ble_proxy.Ble.Reads.{stage, fromradio_read}
use meshtastic_ble_proxy.Ble.Reads.Bounds.{stage-keeps}
use meshtastic_ble_proxy.Ble.Burst.Parked.{encode_cases}
use meshtastic_ble_proxy.Ble.Burst.{chosen_nonce, arm, replay_slot, ble_gatt_replay_cached_burst}

-- A predicate of a slot's connection and state that holds of every slot that is not parked.
pub record IsStable (P : ProxyConn → Type 0) : Type 0 where
  pub alike : (pc q : ProxyConn) → q.conn ≡ pc.conn → q.state ≡ pc.state → P pc → P q
  pub others : (q : ProxyConn) → q.state ≢ pending → P q

module _ (P : ProxyConn → Type 0) (stable : IsStable P) where
  abbrev Holds : Ble → Type 0
  Holds b = All P b.conns

  advertising-All :
      (b : Ble) (answer : Rc) → Holds b → Holds (ble_gatt_start_advertising b answer).1
  unfolding ble_gatt_start_advertising
  advertising-All b answer h =
      let e : (ble_gatt_start_advertising b answer).1.conns ≡ b.conns = ground arith in rw e h

  reset-All :
      (conns : List ProxyConn) (i : ℕ) (conn : Option Conn)
      → All P conns
      → All P (modify conns i (reset_slot conn))
  reset-All conns i conn h =
      All-modify P conns i (reset_slot conn) (λ q e w. stable.others _ (λ e'. ground arith)) h

  module _ (b : Ble) (h : Holds b) where
    pub enqueue-All : (conn : Conn) (pkt : Bytes) → Holds (ble_gatt_enqueue_fromradio b conn pkt).1
    unfolding push_packet
    enqueue-All conn pkt = elim (enqueue_cases b conn pkt) [
      | inl (big, e) ↦ rw e h
      | inr (inl (small, missing, e)) ↦ rw e h
      | inr (inr (pc, i, small, at, found, here, e)) ↦
          elim (Bool-cases (leb fromradio_queue_depth pc.count)) [
            | inl full ↦ rw (e, full) h
            | inr room ↦
                rw (e, room)
                  (All-modify P b.conns i (push_packet pkt) (λ q e' w. stable.alike q _ refl refl w)
                    h)
          ]
    ]

    pub connected-All :
        (conn : Conn) (failed : Bool) (answer : Rc) → Holds (on_connected b conn failed answer)
    unfolding on_connected alloc_slot
    connected-All conn true answer = h
    connected-All conn false answer = elim (Option-cases (find_index? is_free b.conns)) [
      | inl e ↦ rw (on_connected, alloc_slot, e) h
      | inr (i, e) ↦
          let n = (b.active_conn_count + 1) % 2 ^ 8 in
          let after : Ble = record b {
            conns = modify b.conns i (reset_slot (some conn));
            active_conn_count = n;
          } in
          let w = reset-All b.conns i (some conn) h in
          elim (Bool-cases (ltb n max_ble_connections)) [
            | inl more ↦ rw (on_connected, alloc_slot, e, more) (advertising-All after answer w)
            | inr full ↦ rw (on_connected, alloc_slot, e, full) w
          ]
    ]

    pub node_reg-All :
        (conn : Conn) (buf : Bytes) (offset : ℕ) → Holds (node_reg_write b conn buf offset).1
    unfolding node_reg_write ble_gatt_register_proxy_id
    node_reg-All conn buf offset =
        elim (Bool-cases (not (offset == 0) || not (length buf == proxy_id_size))) [
          | inl bad ↦ rw (node_reg_write, bad) h
          | inr good ↦ elim (Option-cases (find_slot b.conns conn)) [
            | inl e ↦ rw (node_reg_write, good, ble_gatt_register_proxy_id, e) h
            | inr (i, e) ↦
                rw (node_reg_write, good, ble_gatt_register_proxy_id, e)
                  (All-modify P b.conns i (λ q. record q { proxy_id = buf })
                    (λ q e' w. stable.alike q _ refl refl w) h)
          ]
        ]

    pub disconnected-All : (conn : Conn) (answer : Rc) → Holds (on_disconnected b conn answer)
    unfolding on_disconnected free_slot
    disconnected-All conn answer =
        advertising-All (drop_conn b conn) answer (elim (Option-cases (find_slot b.conns conn)) [
          | inl e ↦ rw (drop_conn, e) h
          | inr (i, e) ↦ rw (drop_conn, e) (reset-All b.conns i none h)
        ])

    pub read-All :
        (attr_read : Bytes → ℕ → ℕ → Option Bytes) (tags : Tags) (cache : Cache) (conn : Conn)
        (len offset : ℕ)
        → Holds (fromradio_read attr_read tags cache b conn len offset).1
    unfolding fromradio_read stage
    read-All attr_read tags cache conn len offset = elim (Option-cases (find_slot b.conns conn)) [
      | inl e ↦ rw (fromradio_read, e) h
      | inr (i, e) ↦
          let (pc, at, _) = find_slot-some b.conns conn i e in
          let w : P pc = All-get_elem? P b.conns i pc h at in
          let staged : P (stage tags cache pc) =
            let moved : ((stage tags cache pc).state ≡ pc.state)
                ⊎ ((stage tags cache pc).state ≡ active) =
              ground arith in
            elim moved [
              | inl same ↦ stable.alike pc _ (stage-keeps tags cache pc) same w
              | inr live ↦ stable.others _ (λ e'. ground arith)
            ] in
          elim (Bool-cases (offset == 0)) [
            | inl fresh ↦
                rw (fromradio_read, e, at, fresh)
                  (All-modify P b.conns i (λ _. stage tags cache pc) (λ q e' w'. staged) h)
            | inr later ↦
                rw (fromradio_read, e, at, later)
                  (All-modify P b.conns i (λ _. pc) (λ q e' w'. w) h)
          ]
    ]

    pub replay-All :
        (pb : Nanopb) (conn : Conn) (nonce : ℕ)
        → Holds (ble_gatt_replay_cached_burst pb b conn nonce)
    unfolding ble_gatt_replay_cached_burst arm
    replay-All pb conn nonce = elim (Option-cases (find_slot b.conns conn)) [
      | inl e ↦ rw (ble_gatt_replay_cached_burst, e) h
      | inr (i, e) ↦
          let (pc, at, _) = find_slot-some b.conns conn i e in
          let w : P pc = All-get_elem? P b.conns i pc h at in
          elim (encode_cases pb (chosen_nonce nonce pc)) [
            | inl (e', fails) ↦
                rw (ble_gatt_replay_cached_burst, e, at, replay_slot, fails)
                  (All-modify P b.conns i _ (λ q e'' w'. stable.alike pc _ refl refl w) h)
            | inr (bs, works) ↦
                rw (ble_gatt_replay_cached_burst, e, at, replay_slot, works)
                  (All-modify P b.conns i _ (λ q e'' w'. stable.others _ (λ e'. ground arith)) h)
          ]
    ]

  pub broadcast_from-All :
      (n : ℕ) (b : Ble) (pkt : Bytes) (i sent : ℕ)
      → Holds b
      → Holds (broadcast_from b pkt i n sent).1
  unfolding broadcast_from
  broadcast_from-All zero b pkt i sent h = h
  broadcast_from-All (suc n) b pkt i sent h = elim (Option-cases (get_elem? b.conns i)) [
    | inl e ↦ rw (broadcast_from, e) h
    | inr (pc, e) ↦ elim (Option-cases pc.conn) [
      | inl free ↦ rw (broadcast_from, e, free) (broadcast_from-All n b pkt (i + 1) sent h)
      | inr (conn, held) ↦
          let (rc, b') = ble_gatt_enqueue_fromradio b conn pkt in
          rw (broadcast_from, e, held)
            (broadcast_from-All n b' pkt (i + 1) (count_sent rc sent) (enqueue-All b h conn pkt))
    ]
  ]

  pub reply-All :
      (pb : Nanopb) (b : Ble) (conn : Conn) → Holds b → Holds (ble_gatt_reply_queuestatus pb b conn)
  unfolding ble_gatt_reply_queuestatus
  reply-All pb b conn h = elim (Bool-cases (length b.qs == 0)) [
    | inl e ↦ rw (ble_gatt_reply_queuestatus, e) (fresh (proto_encode_queue_status pb qs_size))
    | inr e ↦ rw (ble_gatt_reply_queuestatus, e) (enqueue-All b h conn b.qs)
  ]
    where
      fresh :
          (r : EncodeResult)
          → Holds (elim r [
            | encode_failed e ↦ b
            | encoded qs ↦ (ble_gatt_enqueue_fromradio (record b { qs = qs }) conn qs).1
          ])
      fresh (encode_failed e) = h
      fresh (encoded qs) = enqueue-All (record b { qs = qs }) h conn qs
