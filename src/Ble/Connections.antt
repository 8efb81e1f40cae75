-- ===== src/Ble/Connections.antt =====
-- Slots, connection callbacks, advertising and the identifiers of src/ble_gatt.c.
pub mod Slots
pub mod Registry
use meshtastic_ble_proxy.Base.{
  ℕ, ◌+◌, ◌%◌, ◌^◌, Bool, true, false, not, ◌&&◌, ◌||◌, Option, none, some, List, [], ◌∷◌, ltb,
  ◌==◌, if◌then◌else◌, length, get_elem?, modify, replicate, find_index?, Bytes, Rc, ok, err, Errno,
  enoent, ealready,
}
use meshtastic_ble_proxy.ProxyProtocol.{ProxyId, proxy_id_size, proxy_id_is_zero, proxy_id_equal}
use meshtastic_ble_proxy.Ble.State.{
  Conn, PhoneState, connected, ProxyConn, Ble, Effect, disconnect, start_advertising, emit, is_conn,
  is_free, find_slot, max_ble_connections,
}

-- The fields that `alloc_slot` and `free_slot` set, with the connection given.
abbrev pub reset_slot : Option Conn → ProxyConn → ProxyConn
reset_slot conn pc = record pc {
  conn = conn;
  proxy_id = replicate proxy_id_size 0;
  fromnum = 0;
  head = 0;
  tail = 0;
  count = 0;
  staged = [];
  state = connected;
  nonce = 0;
  replay_cursor = 0;
}

unfoldable pub alloc_slot : List ProxyConn → Conn → Option (List ProxyConn)
alloc_slot conns conn = elim (find_index? is_free conns) [
  | none ↦ none
  | some i ↦ some (modify conns i (reset_slot (some conn)))
]

unfoldable pub free_slot : List ProxyConn → ℕ → List ProxyConn
free_slot conns i = modify conns i (reset_slot none)

-- `answer` is what `bt_le_adv_start` returns; an error other than -EALREADY is passed on.
unfoldable pub ble_gatt_start_advertising : Ble → Rc → Rc × Ble
ble_gatt_start_advertising b answer =
    let b' = emit start_advertising b in
    elim answer [ ok ↦ (ok, b') | err e ↦ elim e [ ealready ↦ (ok, b') | e' ↦ (err e', b') ] ]

-- `failed` is whether `err` is not 0.
unfoldable pub on_connected : Ble → Conn → Bool → Rc → Ble
unfolding alloc_slot ble_gatt_start_advertising
on_connected b conn failed adv = if failed then b else elim (alloc_slot b.conns conn) [
  | none ↦ emit (disconnect conn) b
  | some conns ↦
      let n = (b.active_conn_count + 1) % 2 ^ 8 in
      let b' = record b { conns = conns; active_conn_count = n } in
      if ltb n max_ble_connections then (ble_gatt_start_advertising b' adv).1 else b'
]

-- The part of `on_disconnected` under `if (pc)`.
abbrev pub drop_conn : Ble → Conn → Ble
drop_conn b conn = elim (find_slot b.conns conn) [
  | none ↦ b
  | some i ↦ record b {
    conns = free_slot b.conns i;
    active_conn_count = (b.active_conn_count + 255) % 2 ^ 8;
  }
]

unfoldable pub on_disconnected : Ble → Conn → Rc → Ble
unfolding ble_gatt_start_advertising find_slot free_slot
on_disconnected b conn adv = (ble_gatt_start_advertising (drop_conn b conn) adv).1

-- `conns[i].conn && proxy_id_equal(&conns[i].proxy_id, id)`
abbrev pub has_proxy_id : ProxyId → ProxyConn → Bool
has_proxy_id id pc = not (is_free pc) && proxy_id_equal pc.proxy_id id

unfoldable pub ble_gatt_get_conn_by_proxy_id : Ble → ProxyId → Option Conn
ble_gatt_get_conn_by_proxy_id b id =
    if proxy_id_is_zero id then none else elim (find_index? (has_proxy_id id) b.conns) [
      | none ↦ none
      | some i ↦ elim (get_elem? b.conns i) [ none ↦ none | some pc ↦ pc.conn ]
    ]

unfoldable pub ble_gatt_register_proxy_id : Ble → Conn → ProxyId → Rc × Ble
ble_gatt_register_proxy_id b conn id = elim (find_slot b.conns conn) [
  | none ↦ (err enoent, b)
  | some i ↦ (ok, record b { conns = modify b.conns i (λ pc. record pc { proxy_id = id }) })
]

-- What a write handler answers: the length taken, or an ATT error.
pub data WriteResult : Type 0 where
  taken : ℕ → WriteResult
  invalid_offset : WriteResult
  invalid_attribute_len : WriteResult

unfoldable pub node_reg_write : Ble → Conn → Bytes → ℕ → WriteResult × Ble
node_reg_write b conn buf offset =
    if not (offset == 0) || not (length buf == proxy_id_size)
    then (invalid_attribute_len, b)
    else (taken (length buf), (ble_gatt_register_proxy_id b conn buf).1)
