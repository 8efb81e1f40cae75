-- ===== src/Ble/Queue/Broadcast.antt =====
-- `ble_gatt_broadcast_fromradio` of src/ble_gatt.c: which phones are given a packet.

use meshtastic_ble_proxy.Base.{
  ℕ, suc, ◌+◌, ◌≡◌, refl, sym, ap, subst, ◌∙◌, Bool, not, none, some, List, [], ◌∷◌, ◌++◌, arith,
  ltb, leb, ◌&&◌, if◌then◌else◌, length, get_elem?, map, modify, Bytes, Bool-cases, inl, inr,
  Option-cases, count_if, Rc, ok, err, get_elem?-append_length, modify-append_length, append_assoc,
  length-append,
}
use meshtastic_ble_proxy.Ble.State.{
  Conn, ProxyConn, Ble, is_free, find_slot, fromradio_queue_depth, max_ble_connections,
}
use meshtastic_ble_proxy.Ble.Connections.Slots.{slot_of, IsDistinct, modify-IsDistinct}
use meshtastic_ble_proxy.Ble.Queue.{
  push_packet, ble_gatt_enqueue_fromradio, ble_gatt_broadcast_fromradio, broadcast_from, count_sent,
}
use meshtastic_ble_proxy.Ble.Queue.Fifo.{IsPacket}
use meshtastic_ble_proxy.Ble.Queue.Delivery.{push_packet-keeps, enqueue_room, enqueue_full}

-- Whether a slot takes a broadcast packet, and what becomes of it.
abbrev pub takes : ProxyConn → Bool
takes pc = not (is_free pc) && ltb pc.count fromradio_queue_depth

abbrev pub given : Bytes → ProxyConn → ProxyConn
given pkt pc = if takes pc then push_packet pkt pc else pc

-- One round of the loop, at a slot that holds a connection.
enqueue_given :
    (b : Ble) (pre : List ProxyConn) (pc : ProxyConn) (rest : List ProxyConn) (conn : Conn)
    (pkt : Bytes)
    → b.conns ≡ pre ++ pc ∷ rest
    → IsDistinct b.conns
    → pc.conn ≡ some conn
    → IsPacket pkt
    → let (rc, b') = ble_gatt_enqueue_fromradio b conn pkt in
      (b'.conns ≡ pre ++ given pkt pc ∷ rest)
      × IsDistinct b'.conns
      × (count_sent rc 0 ≡ (if takes pc then 1 else 0))
enqueue_given b pre pc rest conn pkt shape d holds small =
    elim (Bool-cases (leb fromradio_queue_depth pc.count)) [
      | inl full ↦
          rw (enqueue_full b conn pkt pc slot small (ground arith))
            (rw shape (ap (λ q. pre ++ q ∷ rest) (ground arith)), d, ground arith)
      | inr room ↦
          let (i, found, e) = enqueue_room b conn pkt pc slot small (ground arith) in
          let here : i ≡ length pre = ground (arith, place) in
          rw (e, here)
            (
              ap (λ cs. modify cs (length pre) (push_packet pkt)) shape
                  ∙ modify-append_length pre pc rest (push_packet pkt)
                  ∙ ap (λ q. pre ++ q ∷ rest) (ground arith),
              modify-IsDistinct b.conns (length pre) (push_packet pkt) (push_packet-keeps pkt) d,
              ground arith,
            )
    ]
  where
    at : get_elem? b.conns (length pre) ≡ some pc
    at = rw shape (get_elem?-append_length pre pc rest)

    place : find_slot b.conns conn ≡ some (length pre)
    place = d (length pre) pc conn at holds

    slot : slot_of b.conns conn ≡ some pc
    slot = rw (place, slot_of) at

count_sent-add : (rc : Rc) (sent : ℕ) → count_sent rc sent ≡ sent + count_sent rc 0
count_sent-add ok sent = omega arith
count_sent-add (err e) sent = omega arith

-- What the loop has done when it stops, with the slots of `pre` behind it.
Done : Bytes → List ProxyConn → List ProxyConn → ℕ → ℕ × Ble → Type 0
Done pkt pre rest sent r =
    (r.1.conns ≡ pre ++ map (given pkt) rest)
    × IsDistinct r.1.conns
    × (r.0 ≡ sent + count_if takes rest)

Done-cons :
    (pkt : Bytes) (pre : List ProxyConn) (pc : ProxyConn) (rest : List ProxyConn) (sent more : ℕ)
    (r : ℕ × Ble)
    → more ≡ sent + (if takes pc then 1 else 0)
    → Done pkt (pre ++ given pkt pc ∷ []) rest more r
    → Done pkt pre (pc ∷ rest) sent r
unfolding Done
Done-cons pkt pre pc rest sent more r e h =
    (h.0 ∙ append_assoc pre (given pkt pc ∷ []) (map (given pkt) rest), h.1, ground (arith, h.2))

round_free :
    (b : Ble) (pkt : Bytes) (i n sent : ℕ) (pc : ProxyConn)
    → get_elem? b.conns i ≡ some pc
    → pc.conn ≡ none
    → broadcast_from b pkt i (suc n) sent ≡ broadcast_from b pkt (i + 1) n sent
unfolding broadcast_from
round_free b pkt i n sent pc at free = ground arith

round_held :
    (b : Ble) (pkt : Bytes) (i n sent : ℕ) (pc : ProxyConn) (conn : Conn)
    → get_elem? b.conns i ≡ some pc
    → pc.conn ≡ some conn
    → broadcast_from b pkt i (suc n) sent ≡ (
        let (rc, b') = ble_gatt_enqueue_fromradio b conn pkt in
        broadcast_from b' pkt (i + 1) n (count_sent rc sent))
unfolding broadcast_from
round_held b pkt i n sent pc conn at holds = ground arith

broadcast_from-Done :
    (rest : List ProxyConn) (b : Ble) (pkt : Bytes) (pre : List ProxyConn) (i sent : ℕ)
    → i ≡ length pre
    → b.conns ≡ pre ++ rest
    → IsDistinct b.conns
    → IsPacket pkt
    → Done pkt pre rest sent (broadcast_from b pkt i (length rest) sent)
unfolding broadcast_from Done
broadcast_from-Done [] b pkt pre i sent at shape d small = (shape, d, omega arith)
broadcast_from-Done (pc ∷ rest) b pkt pre i sent at shape d small = elim (Option-cases pc.conn) [
  | inl free ↦
      subst (Done pkt pre (pc ∷ rest) sent)
        (sym (round_free b pkt i (length rest) sent pc here free))
        (Done-cons pkt pre pc rest sent sent (broadcast_from b pkt (i + 1) (length rest) sent)
          (ground arith)
          (broadcast_from-Done rest b pkt (pre ++ given pkt pc ∷ []) (i + 1) sent next
            (shape ∙ kept free) d small))
  | inr (conn, holds) ↦
      let (rc, b') = ble_gatt_enqueue_fromradio b conn pkt in
      let (shape', d', one) = enqueue_given b pre pc rest conn pkt shape d holds small in
      subst (Done pkt pre (pc ∷ rest) sent)
        (sym (round_held b pkt i (length rest) sent pc conn here holds))
        (Done-cons pkt pre pc rest sent (count_sent rc sent)
          (broadcast_from b' pkt (i + 1) (length rest) (count_sent rc sent))
          (count_sent-add rc sent ∙ ap (λ k. sent + k) one)
          (broadcast_from-Done rest b' pkt (pre ++ given pkt pc ∷ []) (i + 1) (count_sent rc sent)
            next (shape' ∙ sym (append_assoc pre (given pkt pc ∷ []) rest)) d' small))
]
  where
    here : get_elem? b.conns i ≡ some pc
    here = rw (at, shape) (get_elem?-append_length pre pc rest)

    next : i + 1 ≡ length (pre ++ given pkt pc ∷ [])
    next = omega (arith, length-append pre (given pkt pc ∷ []))

    kept : pc.conn ≡ none → pre ++ pc ∷ rest ≡ (pre ++ given pkt pc ∷ []) ++ rest
    kept free =
        ap (λ q. pre ++ q ∷ rest) (ground arith) ∙ sym (append_assoc pre (given pkt pc ∷ []) rest)

-- In six slots where no connection stands twice, a broadcast of a packet of at most 512 bytes
-- queues it once for every connected phone with fewer than eight waiting and changes no other slot.
-- It answers the number of those phones.
pub broadcast-gives_all :
    (b : Ble) (pkt : Bytes)
    → length b.conns ≡ max_ble_connections
    → IsDistinct b.conns
    → IsPacket pkt
    → let (sent, b') = ble_gatt_broadcast_fromradio b pkt in
      (b'.conns ≡ map (given pkt) b.conns) × (sent ≡ count_if takes b.conns)
unfolding ble_gatt_broadcast_fromradio Done
broadcast-gives_all b pkt size d small =
    let done : Done pkt [] b.conns 0 (broadcast_from b pkt 0 max_ble_connections 0) =
      rw size at (broadcast_from-Done b.conns b pkt [] 0 0 refl refl d small) in
    (done.0, done.2 ∙ omega arith)
