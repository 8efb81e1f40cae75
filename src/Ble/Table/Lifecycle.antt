-- ===== src/Ble/Table/Lifecycle.antt =====
-- Connections of src/ble_gatt.c that come, register and end keep the invariant of the slots.
use meshtastic_ble_proxy.Base.{
  ℕ, ◌+◌, ◌%◌, ◌^◌, ◌≡◌, refl, Bool, true, false, not, none, some, arith, ◌==◌, ltb, length, modify,
  find_index?, find_index?-get_elem?, count_if_max, Option-cases, Bool-cases, inl, inr, ◌||◌, subst,
  Bytes, Rc,
}
use meshtastic_ble_proxy.ProxyProtocol.{ProxyId, proxy_id_size}
use meshtastic_ble_proxy.Ble.State.{
  Conn, PhoneState, pending, ProxyConn, Ble, is_free, find_slot, max_ble_connections, emit,
  start_advertising,
}
use meshtastic_ble_proxy.Ble.Connections.{
  reset_slot, alloc_slot, free_slot, on_connected, on_disconnected, drop_conn,
  ble_gatt_start_advertising, ble_gatt_register_proxy_id, node_reg_write,
}
use meshtastic_ble_proxy.Ble.Connections.Slots.{find_slot-some}
use meshtastic_ble_proxy.Ble.Burst.{park_slot}
use meshtastic_ble_proxy.Ble.Start.{InitAnswers, ble_gatt_init}
use meshtastic_ble_proxy.Ble.Table.{
  IsSound, is_held, slot-IsSound, take_slot-IsValidTable, leave_slot-IsValidTable,
}
use meshtastic_ble_proxy.Ble.Table.Operations.{IsValidBle, reset-IsSound, change-IsValidBle}

pub advertising-IsValidBle :
    (b : Ble) (answer : Rc) → IsValidBle b → IsValidBle (ble_gatt_start_advertising b answer).1
unfolding ble_gatt_start_advertising
advertising-IsValidBle b answer v =
    let e : (ble_gatt_start_advertising b answer).1 ≡ emit start_advertising b = ground arith in
    rw e v

-- The Bluetooth stack reports a connection once.
pub connected-IsValidBle :
    (b : Ble) (conn : Conn) (failed : Bool) (answer : Rc)
    → find_slot b.conns conn ≡ none
    → IsValidBle b
    → IsValidBle (on_connected b conn failed answer)
unfolding on_connected alloc_slot
connected-IsValidBle b conn true answer new v = v
connected-IsValidBle b conn false answer new v = elim (Option-cases (find_index? is_free b.conns)) [
  | inl e ↦ rw (on_connected, alloc_slot, e) v
  | inr (i, e) ↦
      let (pc, at, test) = find_index?-get_elem? is_free b.conns i e in
      let n = b.active_conn_count in
      let w = slot-IsSound b.conns n v i pc at in
      let grown =
        take_slot-IsValidTable b.conns n v i (reset_slot (some conn)) pc conn at (ground arith) new
          refl (reset-IsSound (some conn) pc w) in
      let e' : (n + 1) % 2 ^ 8 ≡ n + 1 =
        omega (arith, v.counted, count_if_max is_held b.conns, v.size) in
      let after : Ble = record b {
        conns = modify b.conns i (reset_slot (some conn));
        active_conn_count = n + 1;
      } in
      elim (Bool-cases (ltb (n + 1) max_ble_connections)) [
        | inl more ↦
            rw (on_connected, alloc_slot, e, e', more) (advertising-IsValidBle after answer grown)
        | inr full ↦ rw (on_connected, alloc_slot, e, e', full) grown
      ]
]

pub disconnected-IsValidBle :
    (b : Ble) (conn : Conn) (answer : Rc)
    → IsValidBle b
    → IsValidBle (on_disconnected b conn answer)
unfolding on_disconnected free_slot
disconnected-IsValidBle b conn answer v =
    advertising-IsValidBle (drop_conn b conn) answer (elim (Option-cases (find_slot b.conns conn)) [
      | inl e ↦ rw (drop_conn, e) v
      | inr (i, e) ↦
          let (pc, at, held) = find_slot-some b.conns conn i e in
          let w = slot-IsSound b.conns b.active_conn_count v i pc at in
          let (m, less, left) =
            leave_slot-IsValidTable b.conns b.active_conn_count v i (reset_slot none) pc conn e at
              held refl (reset-IsSound none pc w) in
          let e' : (b.active_conn_count + 255) % 2 ^ 8 ≡ m =
            omega (arith, less, v.counted, count_if_max is_held b.conns, v.size) in
          rw (drop_conn, e, e') left
    ])

-- A change of a slot that touches no buffer.
relabelled :
    (pc : ProxyConn) (id : ProxyId) (st : PhoneState) (nonce : ℕ)
    → length id ≡ proxy_id_size
    → IsSound pc
    → IsSound (record pc { proxy_id = id; state = st; nonce = nonce })
relabelled pc id st nonce size w = record {
  buffers = record {
    queue_size = w.buffers.queue_size;
    head_max = w.buffers.head_max;
    count_max = w.buffers.count_max;
    tail_at = w.buffers.tail_at;
    packets = w.buffers.packets;
    staged_max = w.buffers.staged_max;
  };
  closing = w.closing;
  identifier = size;
}

register_id-IsValidBle :
    (b : Ble) (conn : Conn) (id : ProxyId)
    → length id ≡ proxy_id_size
    → IsValidBle b
    → IsValidBle (ble_gatt_register_proxy_id b conn id).1
unfolding ble_gatt_register_proxy_id
register_id-IsValidBle b conn id size v = elim (Option-cases (find_slot b.conns conn)) [
  | inl e ↦ rw (ble_gatt_register_proxy_id, e) v
  | inr (i, e) ↦
      rw (ble_gatt_register_proxy_id, e)
        (change-IsValidBle b conn (λ q. record q { proxy_id = id }) (λ q. refl)
          (λ q w. relabelled q id q.state q.nonce size w) v i e)
]

pub node_reg-IsValidBle :
    (b : Ble) (conn : Conn) (buf : Bytes) (offset : ℕ)
    → IsValidBle b
    → IsValidBle (node_reg_write b conn buf offset).1
unfolding node_reg_write
node_reg-IsValidBle b conn buf offset v =
    elim (Bool-cases (not (offset == 0) || not (length buf == proxy_id_size))) [
      | inl bad ↦ rw (node_reg_write, bad) v
      | inr good ↦ rw (node_reg_write, good) (register_id-IsValidBle b conn buf (ground arith) v)
    ]

pub park-IsValidBle :
    (b b' : Ble) (conn : Conn) (nonce : ℕ)
    → park_slot b conn nonce ≡ some b'
    → IsValidBle b
    → IsValidBle b'
unfolding park_slot
park-IsValidBle b b' conn nonce parked v = elim (Option-cases (find_slot b.conns conn)) [
  | inl e ↦ absurd (ground arith)
  | inr (i, e) ↦
      let e' : record b {
        conns = modify b.conns i (λ q. record q { state = pending; nonce = nonce });
      }
          ≡ b' =
        ground arith in
      subst IsValidBle e' (
        change-IsValidBle b conn (λ q. record q { state = pending; nonce = nonce }) (λ q. refl)
          (λ q w. relabelled q q.proxy_id pending nonce w.identifier w) v i e)
]

pub init-IsValidBle : (a : InitAnswers) (b : Ble) → IsValidBle b → IsValidBle (ble_gatt_init a b).1
unfolding ble_gatt_init
init-IsValidBle a b v =
    let same : (ble_gatt_init a b).1.conns ≡ b.conns = ground arith in
    let count : (ble_gatt_init a b).1.active_conn_count ≡ b.active_conn_count = ground arith in
    rw (same, count) v
