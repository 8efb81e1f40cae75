-- ===== src/Ble/Connections/Registry.antt =====
-- The identifiers that phones register in src/ble_gatt.c.
use mathlib.Core.Option
use meshtastic_ble_proxy.Base.{
  ◌⊎◌, ℕ, ◌≡◌, ◌≢◌, refl, ap, ◌∙◌, some, arith, modify, true, false, Option-cases, Bool-cases, inl,
  inr, length, get_elem?, find_index?, find_index?-get_elem?, find_index?-found, All, All-get_elem?,
  replicate, sym, not, ◌||◌, ◌==◌, Bytes,
}
use meshtastic_ble_proxy.ProxyProtocol.{ProxyId, proxy_id_is_zero, proxy_id_equal, proxy_id_size}
use meshtastic_ble_proxy.ProxyProtocol.Ids.{proxy_id_equal_iff, proxy_id_is_zero_iff}
use meshtastic_ble_proxy.Ble.State.{Conn, ProxyConn, Ble, find_slot}
use meshtastic_ble_proxy.Ble.Connections.{
  has_proxy_id, ble_gatt_get_conn_by_proxy_id, ble_gatt_register_proxy_id, node_reg_write, taken,
  invalid_attribute_len,
}
use meshtastic_ble_proxy.Ble.Connections.Slots.{
  slot_of, slot_of-modify_self, slot_of-modify_ne, IsDistinct, find_slot-some,
}

-- The connection that is found for an identifier holds a slot in which that identifier stands, and
-- the identifier is not the zero one, which means all phones.
get_conn-registered :
    (b : Ble) (id : ProxyId) (conn : Conn)
    → IsDistinct b.conns
    → ble_gatt_get_conn_by_proxy_id b id ≡ some conn
    → (pc : ProxyConn) × (slot_of b.conns conn ≡ some pc)
      × (proxy_id_equal pc.proxy_id id ≡ true)
      × (proxy_id_is_zero id ≡ false)
unfolding ble_gatt_get_conn_by_proxy_id
get_conn-registered b id conn d e = elim (Option-cases (find_index? (has_proxy_id id) b.conns)) [
  | inl miss ↦ absurd (ground arith)
  | inr (i, hit) ↦
      let (pc, at, has) = find_index?-get_elem? (has_proxy_id id) b.conns i hit in
      let held : pc.conn ≡ some conn = ground arith in
      let found : find_slot b.conns conn ≡ some i = d i pc conn at held in
      (pc, rw (slot_of, found) at, ground arith, ground arith)
]

-- An identifier of four bytes.
abbrev pub HasSize : ProxyConn → Type 0
HasSize q = length q.proxy_id ≡ proxy_id_size

-- An identifier other than the zero one that a phone has registered finds that phone's connection, in
-- whichever slot it stands, where every identifier has four bytes and no other phone has registered
-- the same one.
pub get_conn-found :
    (b : Ble) (id : ProxyId) (conn : Conn) (pc : ProxyConn)
    → IsDistinct b.conns
    → All HasSize b.conns
    → slot_of b.conns conn ≡ some pc
    → pc.proxy_id ≡ id
    → id ≢ replicate proxy_id_size 0
    → ((other : Conn) (q : ProxyConn)
        → slot_of b.conns other ≡ some q
        → q.proxy_id ≡ id
        → other ≡ conn)
    → ble_gatt_get_conn_by_proxy_id b id ≡ some conn
unfolding ble_gatt_get_conn_by_proxy_id
get_conn-found b id conn pc d sizes at own set alone =
    elim (Option-cases (find_slot b.conns conn)) [
      | inl e ↦ absurd (ground arith)
      | inr (i, e) ↦
          let (q, place, held) = find_slot-some b.conns conn i e in
          let same : q ≡ pc = ground arith in
          let here : get_elem? b.conns i ≡ some pc = place ∙ ap some same in
          let four : length id ≡ proxy_id_size =
            ap length (sym own) ∙ All-get_elem? HasSize b.conns i pc sizes here in
          let zeroes = proxy_id_is_zero_iff id four in
          let passes : has_proxy_id id pc ≡ true =
            ground (arith, (proxy_id_equal_iff pc.proxy_id id (ap length own ∙ four) four).1 own) in
          let (j, found) = find_index?-found (has_proxy_id id) b.conns i pc here passes in
          let (r, spot, has) = find_index?-get_elem? (has_proxy_id id) b.conns j found in
          let equal =
            proxy_id_equal_iff r.proxy_id id (All-get_elem? HasSize b.conns j r sizes spot) four in
          elim (Option-cases r.conn) [
            | inl free ↦ absurd (ground arith)
            | inr (other, holds) ↦
                let first : find_slot b.conns other ≡ some j = d j r other spot holds in
                let same' : other ≡ conn =
                  alone other r (rw (slot_of, first) spot) (equal.0 (ground arith)) in
                let not_zero : proxy_id_is_zero id ≡ false = ground arith in
                rw (not_zero, found) (rw spot (holds ∙ ap some same'))
          ]
    ]

-- After a write of four bytes the phone's slot holds them as its identifier, and no other phone's
-- slot has changed. A write at an offset or of another
-- length is refused and changes nothing.
pub node_reg_write-slot :
    (b : Ble) (conn : Conn) (buf : Bytes) (offset : ℕ) (pc : ProxyConn)
    → slot_of b.conns conn ≡ some pc
    → let (answer, b') = node_reg_write b conn buf offset in
      (((offset ≡ 0)
          × (length buf ≡ proxy_id_size)
          × (answer ≡ taken proxy_id_size)
          × (slot_of b'.conns conn ≡ some (record pc { proxy_id = buf }))
          × ((other : Conn) → other ≢ conn → slot_of b'.conns other ≡ slot_of b.conns other))
        ⊎ (((offset ≢ 0) ⊎ (length buf ≢ proxy_id_size))
            × (answer ≡ invalid_attribute_len)
            × (b' ≡ b)))
unfolding node_reg_write ble_gatt_register_proxy_id
node_reg_write-slot b conn buf offset pc at =
    elim (Bool-cases (not (offset == 0) || not (length buf == proxy_id_size))) [
      | inl bad ↦ inr (ground arith, ground arith, ground arith)
      | inr good ↦ inl (elim (Option-cases (find_slot b.conns conn)) [
        | inl e ↦ absurd (ground arith)
        | inr (i, e) ↦
            let stored : node_reg_write b conn buf offset
                ≡ (taken proxy_id_size, record b { conns = modify b.conns i name }) =
              ground arith in
            rw stored (
              ground arith,
              ground arith,
              refl,
              slot_of-modify_self b.conns conn i name e (λ q. refl) ∙ ap (Option.map name) at,
              slot_of-modify_ne b.conns conn i name e (λ q. refl),
            )
      ])
    ]
  where
    name : ProxyConn → ProxyConn
    name q = record q { proxy_id = buf }
