-- ===== src/Ble/Reads/Stream.antt =====
-- The live packets of src/ble_gatt.c as a stream: what `ble_gatt_enqueue_fromradio` accepts for a
-- phone against what the phone's fresh reads of FROMRADIO stage.
pub mod Events
pub mod Order
use meshtastic_ble_proxy.Base.{
  ℕ, ◌+◌, ◌%◌, ◌^◌, ◌≡◌, ◌≢◌, refl, ap, Bool, true, false, ◌&&◌, Option, none, some, List, [], ◌∷◌,
  ◌++◌, arith, ◌==◌, if◌then◌else◌, length, Bytes, Rc, ok, err, append-nil,
}
use meshtastic_ble_proxy.Nanopb.{Tags}
use meshtastic_ble_proxy.ConfigCache.{Cache}
use meshtastic_ble_proxy.Ble.State.{Conn, replaying, ProxyConn, Ble}
use meshtastic_ble_proxy.Ble.Connections.Slots.{slot_of}
use meshtastic_ble_proxy.Ble.Queue.{ble_gatt_enqueue_fromradio}
use meshtastic_ble_proxy.Ble.Queue.Fifo.{IsValidSlot, waiting}
use meshtastic_ble_proxy.Ble.Reads.{fromradio_read}
use meshtastic_ble_proxy.Ble.Reads.Long.{Between, queue, read, between}

-- The packets with a byte in them. A phone cannot tell an empty one from an empty queue.
abbrev pub filled : List Bytes → List Bytes
filled [] = []
filled ([] ∷ ps) = filled ps
filled ((x ∷ p) ∷ ps) = (x ∷ p) ∷ filled ps

pub filled-append : (ps qs : List Bytes) → filled (ps ++ qs) ≡ filled ps ++ filled qs
filled-append [] qs = refl
filled-append ([] ∷ ps) qs = filled-append ps qs
filled-append ((x ∷ p) ∷ ps) qs = ap (◌∷◌ (x ∷ p)) (filled-append ps qs)

abbrev pub is_ok : Rc → Bool
is_ok ok = true
is_ok (err e) = false

-- A slot whose phone is not in a replay.
pub record IsLive (pc : ProxyConn) : Type 0 where
  pub valid : IsValidSlot pc
  pub not_replaying : pc.state ≢ replaying

-- What an event accepts for a connection.
abbrev pub accepted : Conn → Ble → Between → List Bytes
accepted conn b (queue c pkt) =
    if (c == conn) && is_ok (ble_gatt_enqueue_fromradio b c pkt).0 then pkt ∷ [] else []
accepted conn b (read c len offset) = []

abbrev pub staged_list : Option ProxyConn → List Bytes
staged_list none = []
staged_list (some pc) = pc.staged ∷ []

-- What becomes of a live slot: the packets in and out of it balance, and its counter counts those
-- accepted.
abbrev pub Balances : Conn → List ProxyConn → ProxyConn → List Bytes → List Bytes → Type 0
Balances conn conns pc ins outs =
    (q : ProxyConn) × (slot_of conns conn ≡ some q)
    × IsLive q
    × (filled (waiting pc ++ ins) ≡ filled (outs ++ waiting q))
    × (q.fromnum % 2 ^ 32 ≡ (pc.fromnum + length ins) % 2 ^ 32)

pub unchanged :
    (conn : Conn) (conns : List ProxyConn) (pc : ProxyConn)
    → slot_of conns conn ≡ some pc
    → IsLive pc
    → Balances conn conns pc [] []
unchanged conn conns pc at w = (pc, at, w, ap filled (append-nil (waiting pc)), omega arith)

module _ (attr_read : Bytes → ℕ → ℕ → Option Bytes) (tags : Tags) (cache : Cache) where
  -- What an event stages for a connection: a fresh read's packet, which a long read gives in parts.
  abbrev pub served : Conn → Ble → Between → List Bytes
  served conn b (queue c pkt) = []
  served conn b (read c len offset) =
      if (c == conn) && (offset == 0)
      then staged_list (slot_of (fromradio_read attr_read tags cache b c len offset).1.conns conn)
      else []

  -- Over a sequence of events, in their order.
  unfoldable pub gathered : (Ble → Between → List Bytes) → Ble → List Between → List Bytes
  gathered what b [] = []
  gathered what b (e ∷ es) = what b e ++ gathered what (between attr_read tags cache b e) es
