-- ===== src/Ble/Reads/Long.antt =====
-- Long reads of FROMRADIO, src/ble_gatt.c: a phone reads a packet in parts, the first at offset 0 and
-- each other where the last ended, until a part is shorter than what it asked for.
pub mod Staged
pub mod Packet
use mathlib.Core.Option
use meshtastic_ble_proxy.Base.{
  ℕ, zero, suc, ◌+◌, ◌*◌, ◌-◌, ◌≤◌, ◌<◌, ◌≡◌, ◌≢◌, refl, sym, ap, ◌∙◌, Option, none, some, List, [],
  ◌∷◌, ◌++◌, arith, ltb, ◌==◌, if◌then◌else◌, length, take, drop, drop-nil, take-nil, length-take,
  length-drop, take-all, drop-add, take-append-drop, ltb→lt, min, modify, get_elem?, Bytes, All,
  Bool-cases, true, Option-cases, inl, inr, ◌⊎◌, leb, modify-at,
}
use meshtastic_ble_proxy.Nanopb.{Tags}
use meshtastic_ble_proxy.ConfigCache.{Cache}
use meshtastic_ble_proxy.Ble.State.{Conn, ProxyConn, Ble, find_slot}
use meshtastic_ble_proxy.Ble.Connections.Slots.{
  slot_of, find_slot-some, slot_of-modify_self, slot_of-modify_ne,
}
use meshtastic_ble_proxy.Ble.Queue.{push_packet, ble_gatt_enqueue_fromradio}
use meshtastic_ble_proxy.Ble.Queue.Delivery.{enqueue_cases, push_packet-keeps}
use meshtastic_ble_proxy.Ble.Reads.Bounds.{stage-keeps}
use meshtastic_ble_proxy.Ble.Reads.{bytes, refused, unlikely, serve_staged, stage, fromradio_read}

-- What `bt_gatt_attr_read` is documented to do: at most `len` bytes of the value from the offset on,
-- where the offset is not past its end.
abbrev pub IsAttrRead : (Bytes → ℕ → ℕ → Option Bytes) → Type 0
IsAttrRead attr_read =
    (value : Bytes) (len offset : ℕ)
    → offset ≤ length value
    → attr_read value len offset ≡ some (take len (drop offset value))

-- What may happen between two parts: a packet is queued for some phone, or a phone reads.
pub data Between : Type 0 where
  queue : Conn → Bytes → Between
  read : Conn → ℕ → ℕ → Between

-- Another phone's read, or any packet.
unfoldable pub IsOther : Conn → Between → Type 0
IsOther conn (queue c pkt) = Unit
IsOther conn (read c len offset) = c ≢ conn

module _ (attr_read : Bytes → ℕ → ℕ → Option Bytes) (tags : Tags) (cache : Cache) where
  unfoldable pub between : Ble → Between → Ble
  between b (queue conn pkt) = (ble_gatt_enqueue_fromradio b conn pkt).1
  between b (read conn len offset) = (fromradio_read attr_read tags cache b conn len offset).1

  unfoldable pub all_between : Ble → List Between → Ble
  all_between b [] = b
  all_between b (e ∷ es) = all_between (between b e) es

  -- The phone's part, `n` parts at most; `meanwhile n` is what happens before the next one.
  unfoldable pub long_read : (ℕ → List Between) → Conn → ℕ → ℕ → ℕ → Ble → Option Bytes
  unfolding all_between between
  long_read meanwhile conn room zero offset b = none
  long_read meanwhile conn room (suc n) offset b =
      let (answer, b') = fromradio_read attr_read tags cache b conn room offset in
      elim answer [
        | bytes part ↦
            let rest =
              long_read meanwhile conn room n (offset + length part)
                (all_between b' (meanwhile n)) in
            if ltb (length part) room then some part else Option.map (λ ps. part ++ ps) rest
        | refused ↦ none
        | unlikely ↦ none
      ]
