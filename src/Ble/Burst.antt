-- ===== src/Ble/Burst.antt =====
-- `ble_gatt_replay_cached_burst` of src/ble_gatt.c: it arms the replay that the reads serve.
pub mod Arming
pub mod Parked
use meshtastic_ble_proxy.Base.{
  ℕ, ◌+◌, ◌%◌, ◌^◌, Option, none, some, ◌==◌, if◌then◌else◌, length, get_elem?, modify, copy_at,
  Bytes,
}
use meshtastic_ble_proxy.Nanopb.{Nanopb}
use meshtastic_ble_proxy.Proto.{proto_encode_config_complete, encoded, encode_failed}
use meshtastic_ble_proxy.Ble.State.{
  Conn, replaying, pending, ProxyConn, Ble, notify_fromnum, emit, find_slot, cc_frame_size,
}

-- The stores of an armed replay, with the closing frame encoded.
unfoldable pub arm : Bytes → ProxyConn → ProxyConn
arm cc pc = record pc {
  cc_frame = copy_at pc.cc_frame 0 cc;
  cc_len = length cc % 2 ^ 8;
  replay_cursor = 0;
  state = replaying;
  fromnum = (pc.fromnum + 1) % 2 ^ 32;
}

-- The nonce 0 stands for the stored one.
abbrev pub chosen_nonce : ℕ → ProxyConn → ℕ
chosen_nonce nonce pc = if nonce == 0 then pc.nonce else nonce

-- The slot's part. A failed encoding leaves the chosen nonce stored.
abbrev pub replay_slot : Nanopb → Ble → Conn → ℕ → ℕ → ProxyConn → Ble
replay_slot pb b conn nonce i pc =
    let chosen = chosen_nonce nonce pc in
    let named = record pc { nonce = chosen } in
    elim (proto_encode_config_complete pb chosen cc_frame_size) [
      | encode_failed e ↦ record b { conns = modify b.conns i (λ _. named) }
      | encoded cc ↦
          emit (notify_fromnum conn ((pc.fromnum + 1) % 2 ^ 32))
            (record b { conns = modify b.conns i (λ _. arm cc named) })
    ]

unfoldable pub ble_gatt_replay_cached_burst : Nanopb → Ble → Conn → ℕ → Ble
ble_gatt_replay_cached_burst pb b conn nonce = elim (find_slot b.conns conn) [
  | none ↦ b
  | some i ↦ elim (get_elem? b.conns i) [ none ↦ b | some pc ↦ replay_slot pb b conn nonce i pc ]
]

-- The slot's part of `ble_gatt_park_pending`; the registration with the session follows it.
unfoldable pub park_slot : Ble → Conn → ℕ → Option Ble
park_slot b conn nonce = elim (find_slot b.conns conn) [
  | none ↦ none
  | some i ↦
      some
        (record b { conns = modify b.conns i (λ pc. record pc { state = pending; nonce = nonce }) })
]
