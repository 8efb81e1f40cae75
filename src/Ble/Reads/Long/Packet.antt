-- ===== src/Ble/Reads/Long/Packet.antt =====
-- Long reads of FROMRADIO, src/ble_gatt.c: the parts are the packet.
use mathlib.Core.Option
use meshtastic_ble_proxy.Base.{
  ℕ, zero, suc, ◌+◌, ◌*◌, ◌-◌, ◌≤◌, ◌<◌, ◌≡◌, ap, ◌∙◌, Option, some, List, [], ◌∷◌, ◌++◌, arith,
  ltb, length, take, drop, drop-nil, take-nil, length-take, length-drop, take-all, drop-add,
  take-append-drop, ltb→lt, min, Bytes, All, Bool-cases, true, inl, inr,
}
use meshtastic_ble_proxy.Nanopb.{Tags}
use meshtastic_ble_proxy.ConfigCache.{Cache}
use meshtastic_ble_proxy.Ble.State.{Conn, ProxyConn, Ble}
use meshtastic_ble_proxy.Ble.Connections.Slots.{slot_of}
use meshtastic_ble_proxy.Ble.Reads.{bytes, serve_staged, stage, fromradio_read}
use meshtastic_ble_proxy.Ble.Reads.Long.{IsAttrRead, Between, IsOther, all_between, long_read}
use meshtastic_ble_proxy.Ble.Reads.Long.Staged.{
  staged_of, staged_slot, refreshed, refreshed-later, read_slot, read-staged_self, between-staged,
}

module _ (attr_read : Bytes → ℕ → ℕ → Option Bytes) (tags : Tags) (cache : Cache) where
  module _ (law : IsAttrRead attr_read) where
    serve-part :
        (v : Bytes) (room offset : ℕ)
        → offset ≤ length v
        → serve_staged attr_read v room offset ≡ bytes (take room (drop offset v))
    serve-part [] room offset h = rw (drop-nil {A = ℕ} offset, take-nil {A = ℕ} room)
    serve-part (x ∷ v) room offset h =
        let not_empty : ltb 0 (length (x ∷ v)) ≡ true = ground arith in
        rw (not_empty, law (x ∷ v) room offset h)

    module _ (meanwhile : ℕ → List Between) (conn : Conn) (room : ℕ) (some_room : 0 < room)
        (others : (n : ℕ) → All (IsOther conn) (meanwhile n)) where
      long_read_from :
          (n offset : ℕ) (b : Ble) (pc : ProxyConn)
          → slot_of b.conns conn ≡ some pc
          → let v = (refreshed attr_read tags cache offset pc).staged in
            offset ≤ length v
            → length v < n * room + offset
            → long_read attr_read tags cache meanwhile conn room n offset b ≡ some (drop offset v)
      unfolding long_read
      long_read_from zero offset b pc at h enough = absurd (omega arith)
      long_read_from (suc n) offset b pc at h enough =
          let v = (refreshed attr_read tags cache offset pc).staged in
          let (i, found, e) = read_slot attr_read tags cache b conn room offset pc at in
          let part = take room (drop offset v) in
          let b' =
            all_between attr_read tags cache
              (fromradio_read attr_read tags cache b conn room offset).1 (meanwhile n) in
          let kept : staged_of b'.conns conn ≡ some v =
            between-staged attr_read tags cache conn (meanwhile n) _ (others n)
            ∙ read-staged_self attr_read tags cache b conn room offset pc at in
          let (pc', at', same) = staged_slot b'.conns conn v kept in
          let len : length part ≡ min room (length v - offset) =
            omega (arith, length-take room (drop offset v), length-drop offset v) in
          rw (long_read, e, serve-part v room offset h)
            (elim (Bool-cases (ltb (length part) room)) [
              | inl short ↦ rw short (
                  ap some (
                    take-all room (drop offset v)
                      (omega (arith, length-drop offset v, ltb→lt (length part) room short))))
              | inr full ↦
                  let size : length part ≡ room = ground (arith, len) in
                  let later : (refreshed attr_read tags cache (offset + length part) pc').staged
                      ≡ v =
                    ap (λ q. q.staged)
                      (refreshed-later attr_read tags cache (offset + length part) pc'
                        (omega arith))
                    ∙ same in
                  let rest =
                    long_read_from n (offset + length part) b' pc' at' (rw later (omega arith))
                      (rw later (omega arith)) in
                  rw full (
                    ap (Option.map (λ ps. part ++ ps)) rest
                    ∙ ap some (
                        rw (later, size, drop-add offset room v)
                          (take-append-drop room (drop offset v))))
            ])

      -- Where a part of the staged packet is what `bt_gatt_attr_read` is documented to give, a phone
      -- that reads in parts of at most `room` bytes, `room` positive, from offset 0 on until a part is
      -- shorter is given exactly the packet that its read at offset 0 stages, whatever packets are
      -- queued, for it too, and whatever other phones read between the parts; as many parts are enough
      -- as hold more bytes than the packet.
      pub long_read-staged :
          (n : ℕ) (b : Ble) (pc : ProxyConn)
          → slot_of b.conns conn ≡ some pc
          → let packet = (stage tags cache pc).staged in
            length packet < n * room
            → long_read attr_read tags cache meanwhile conn room n 0 b ≡ some packet
      unfolding refreshed
      long_read-staged n b pc at enough = long_read_from n 0 b pc at (omega arith) (omega arith)
