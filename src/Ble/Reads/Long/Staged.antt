-- ===== src/Ble/Reads/Long/Staged.antt =====
-- What stays staged in src/ble_gatt.c while other phones read and packets are queued.
use mathlib.Core.Option
use meshtastic_ble_proxy.Base.{
  ℕ, ◌<◌, ◌≡◌, ◌≢◌, refl, sym, ap, ◌∙◌, Option, none, some, List, [], ◌∷◌, arith, ◌==◌,
  if◌then◌else◌, modify, get_elem?, Bytes, All, Bool-cases, Option-cases, inl, inr, ◌⊎◌, leb,
  modify-at,
}
use meshtastic_ble_proxy.Nanopb.{Tags}
use meshtastic_ble_proxy.ConfigCache.{Cache}
use meshtastic_ble_proxy.Ble.State.{Conn, ProxyConn, Ble, find_slot}
use meshtastic_ble_proxy.Ble.Connections.Slots.{
  slot_of, find_slot-some, slot_of-modify_self, slot_of-modify_ne,
}
use meshtastic_ble_proxy.Ble.Queue.{push_packet, ble_gatt_enqueue_fromradio}
use meshtastic_ble_proxy.Ble.Queue.Delivery.{enqueue_cases, push_packet-keeps}
use meshtastic_ble_proxy.Ble.Reads.Bounds.{stage-keeps}
use meshtastic_ble_proxy.Ble.Reads.{serve_staged, stage, fromradio_read}
use meshtastic_ble_proxy.Ble.Reads.Long.{Between, queue, read, IsOther, between, all_between}

-- A connection with a slot, and its index.
slot_at :
    (conns : List ProxyConn) (conn : Conn) (pc : ProxyConn)
    → slot_of conns conn ≡ some pc
    → (i : ℕ) × (find_slot conns conn ≡ some i) × (get_elem? conns i ≡ some pc)
slot_at conns conn pc at = elim (Option-cases (find_slot conns conn)) [
  | inl e ↦ absurd (ground arith)
  | inr (i, e) ↦ (i, e, ground arith)
]

-- The packet that is staged for a connection.
abbrev pub staged_of : List ProxyConn → Conn → Option Bytes
staged_of conns conn = Option.map (λ pc. pc.staged) (slot_of conns conn)

pub staged_slot :
    (conns : List ProxyConn) (conn : Conn) (v : Bytes)
    → staged_of conns conn ≡ some v
    → (pc : ProxyConn) × (slot_of conns conn ≡ some pc) × (pc.staged ≡ v)
staged_slot conns conn v e = elim (Option-cases (slot_of conns conn)) [
  | inl missing ↦ absurd (ground arith)
  | inr (pc, at) ↦ (pc, at, ground arith)
]

module _ (attr_read : Bytes → ℕ → ℕ → Option Bytes) (tags : Tags) (cache : Cache) where
  -- What a read makes of the slot.
  unfoldable pub refreshed : ℕ → ProxyConn → ProxyConn
  refreshed offset pc = if offset == 0 then stage tags cache pc else pc

  pub refreshed-keeps : (offset : ℕ) (pc : ProxyConn) → (refreshed offset pc).conn ≡ pc.conn
  unfolding refreshed
  refreshed-keeps offset pc = elim (Bool-cases (offset == 0)) [
    | inl fresh ↦ rw fresh (stage-keeps tags cache pc)
    | inr later ↦ rw later
  ]

  pub refreshed-later : (offset : ℕ) (pc : ProxyConn) → 0 < offset → refreshed offset pc ≡ pc
  unfolding refreshed
  refreshed-later offset pc h = ground arith

  -- A read of a connection with a slot.
  pub read_slot :
      (b : Ble) (conn : Conn) (len offset : ℕ) (pc : ProxyConn)
      → slot_of b.conns conn ≡ some pc
      → (i : ℕ) × (find_slot b.conns conn ≡ some i)
        × (fromradio_read attr_read tags cache b conn len offset ≡ (
          serve_staged attr_read (refreshed offset pc).staged len offset,
          record b { conns = modify b.conns i (refreshed offset) },
        ))
  unfolding refreshed fromradio_read
  read_slot b conn len offset pc at =
      let (i, found, here) = slot_at b.conns conn pc at in
      let e = modify-at b.conns i (refreshed offset) pc here in
      (
        i,
        found,
        rw (fromradio_read, found, here)
            (ap
              (λ cs. (
                serve_staged attr_read (refreshed offset pc).staged len offset,
                record b { conns = cs },
              ))
              e),
      )

  map-staged :
      (f : ProxyConn → ProxyConn)
      → ((pc : ProxyConn) → (f pc).staged ≡ pc.staged)
      → (o : Option ProxyConn)
      → Option.map (λ pc. pc.staged) (Option.map f o) ≡ Option.map (λ pc. pc.staged) o
  map-staged f leaves none = refl
  map-staged f leaves (some pc) = ap some (leaves pc)

  -- A change of a slot that leaves what is staged.
  module _ (b : Ble) (c : Conn) (i : ℕ) (f : ProxyConn → ProxyConn)
      (found : find_slot b.conns c ≡ some i)
      (keeps : (pc : ProxyConn) → (f pc).conn ≡ pc.conn) where
    modify-staged :
        (conn : Conn)
        → ((pc : ProxyConn) → (f pc).staged ≡ pc.staged) ⊎ (c ≢ conn)
        → staged_of (modify b.conns i f) conn ≡ staged_of b.conns conn
    modify-staged conn h = elim (Bool-cases (c == conn)) [
      | inl same ↦
          let one : c ≡ conn = ground arith in
          elim h [
            | inl leaves ↦
                ap (λ d. staged_of (modify b.conns i f) d) (sym one)
                ∙ ap (Option.map (λ pc. pc.staged)) (slot_of-modify_self b.conns c i f found keeps)
                ∙ map-staged f leaves (slot_of b.conns c)
                ∙ ap (staged_of b.conns) one
            | inr other ↦ absurd (other one)
          ]
      | inr other ↦
          ap (Option.map (λ pc. pc.staged))
            (slot_of-modify_ne b.conns c i f found keeps conn (ground arith))
    ]

  queue-staged :
      (b : Ble) (c : Conn) (pkt : Bytes) (conn : Conn)
      → staged_of (ble_gatt_enqueue_fromradio b c pkt).1.conns conn ≡ staged_of b.conns conn
  unfolding push_packet
  queue-staged b c pkt conn = elim (enqueue_cases b c pkt) [
    | inl (_, e) ↦ rw e
    | inr (inl (_, _, e)) ↦ rw e
    | inr (inr (pc, i, _, at, found, _, e)) ↦ elim (Bool-cases (leb 8 pc.count)) [
      | inl full ↦ rw (e, full)
      | inr room ↦
          rw (e, room)
            (modify-staged b c i (push_packet pkt) found (push_packet-keeps pkt) conn
              (inl (λ pc. refl)))
    ]
  ]

  read-staged :
      (b : Ble) (c : Conn) (len offset : ℕ) (conn : Conn)
      → c ≢ conn
      → staged_of (fromradio_read attr_read tags cache b c len offset).1.conns conn
        ≡ staged_of b.conns conn
  unfolding fromradio_read
  read-staged b c len offset conn ne = elim (Option-cases (find_slot b.conns c)) [
    | inl e ↦ rw (fromradio_read, e)
    | inr (j, e) ↦
        let (pc, here, _) = find_slot-some b.conns c j e in
        let at : slot_of b.conns c ≡ some pc = ground arith in
        let (i, found, answer) = read_slot b c len offset pc at in
        rw answer
          (modify-staged b c i (refreshed offset) found (refreshed-keeps offset) conn (inr ne))
  ]

  pub read-staged_self :
      (b : Ble) (conn : Conn) (len offset : ℕ) (pc : ProxyConn)
      → slot_of b.conns conn ≡ some pc
      → staged_of (fromradio_read attr_read tags cache b conn len offset).1.conns conn
        ≡ some (refreshed offset pc).staged
  read-staged_self b conn len offset pc at =
      let (i, found, e) = read_slot b conn len offset pc at in
      let self =
        slot_of-modify_self b.conns conn i (refreshed offset) found (refreshed-keeps offset) in
      rw e (ap (Option.map (λ q. q.staged)) (self ∙ ap (Option.map (refreshed offset)) at))

  pub between-staged :
      (conn : Conn) (es : List Between) (b : Ble)
      → All (IsOther conn) es
      → staged_of (all_between attr_read tags cache b es).conns conn ≡ staged_of b.conns conn
  unfolding all_between between IsOther
  between-staged conn [] b h = refl
  between-staged conn (queue c pkt ∷ es) b h =
      between-staged conn es (between attr_read tags cache b (queue c pkt)) h.1
      ∙ queue-staged b c pkt conn
  between-staged conn (read c len offset ∷ es) b h =
      between-staged conn es (between attr_read tags cache b (read c len offset)) h.1
      ∙ read-staged b c len offset conn h.0
