-- ===== src/Ble/Table/Reading.antt =====
-- A read of FROMRADIO, src/ble_gatt.c, keeps the invariant of the slots.
use meshtastic_ble_proxy.Base.{
  ℕ, ◌≡◌, Option, Option-cases, Bool-cases, inl, inr, Bytes, ◌==◌, modify, modify-at, refl,
}
use meshtastic_ble_proxy.Nanopb.{Nanopb}
use meshtastic_ble_proxy.ConfigCache.{Cache}
use meshtastic_ble_proxy.Ble.State.{Conn, ProxyConn, Ble, find_slot}
use meshtastic_ble_proxy.Ble.Connections.Slots.{find_slot-some}
use meshtastic_ble_proxy.Ble.Reads.{stage, fromradio_read}
use meshtastic_ble_proxy.Ble.Reads.Bounds.{IsServable, stage-IsSound, stage-keeps}
use meshtastic_ble_proxy.Ble.Table.{IsSound, slot-IsSound, modify-IsValidTable}
use meshtastic_ble_proxy.Ble.Table.Operations.{IsValidBle}

module _ (pb : Nanopb) (attr_read : Bytes → ℕ → ℕ → Option Bytes) where
  pub read-IsValidBle :
      (b : Ble) (cache : Cache) (conn : Conn) (len offset : ℕ)
      → IsServable pb.tags cache
      → IsValidBle b
      → IsValidBle (fromradio_read attr_read pb.tags cache b conn len offset).1
  unfolding fromradio_read
  read-IsValidBle b cache conn len offset ok v = elim (Option-cases (find_slot b.conns conn)) [
    | inl e ↦ rw (fromradio_read, e) v
    | inr (i, e) ↦
        let (pc, at, held) = find_slot-some b.conns conn i e in
        let w = slot-IsSound b.conns b.active_conn_count v i pc at in
        let changed : (f : ProxyConn → ProxyConn)
            → ((q : ProxyConn) → (f q).conn ≡ q.conn)
            → IsSound (f pc)
            → IsValidBle (record b { conns = modify b.conns i (λ _. f pc) }) =
          λ f keeps sound.
            rw (modify-at b.conns i f pc at)
              (modify-IsValidTable b.conns b.active_conn_count v i f pc at keeps sound) in
        elim (Bool-cases (offset == 0)) [
          | inl fresh ↦
              rw (fromradio_read, e, at, fresh)
                (changed (stage pb.tags cache) (stage-keeps pb.tags cache)
                  (stage-IsSound pb.tags cache ok pc w))
          | inr long ↦ rw (fromradio_read, e, at, long) (changed (λ q. q) (λ q. refl) w)
        ]
  ]
