-- ===== src/Ble/Connections/Slots.antt =====
-- The slots of src/ble_gatt.c as a map from connections: what is found for a connection, and what a
-- change of one slot does to the others.
use mathlib.Core.Option
use meshtastic_ble_proxy.Base.{
  ◌∙◌, get_elem?-modify, ℕ, ◌≡◌, ◌≢◌, Option, none, some, List, arith, get_elem?, modify, inl, inr,
  Option-cases, find_index?-modify, find_index?-get_elem?, get_elem?-modify_self,
  get_elem?-modify_ne,
}
use meshtastic_ble_proxy.Ble.State.{Conn, ProxyConn, is_conn, find_slot}

-- The slot of a connection.
abbrev pub slot_of : List ProxyConn → Conn → Option ProxyConn
slot_of conns conn = elim (find_slot conns conn) [ none ↦ none | some i ↦ get_elem? conns i ]

-- What `find_slot` finds is a slot that holds the connection.
pub find_slot-some :
    (conns : List ProxyConn) (conn : Conn) (i : ℕ)
    → find_slot conns conn ≡ some i
    → (pc : ProxyConn) × (get_elem? conns i ≡ some pc) × (pc.conn ≡ some conn)
unfolding find_slot
find_slot-some conns conn i e =
    let (pc, at, holds) = find_index?-get_elem? (is_conn conn) conns i e in (pc, at, ground arith)

abbrev Keeps : (ProxyConn → ProxyConn) → Type 0
Keeps f = (pc : ProxyConn) → (f pc).conn ≡ pc.conn

module _ (conns : List ProxyConn) (conn : Conn) (i : ℕ) (f : ProxyConn → ProxyConn)
    (found : find_slot conns conn ≡ some i) (keeps : Keeps f) where
  find_slot-modify : (c : Conn) → find_slot (modify conns i f) c ≡ find_slot conns c
  unfolding find_slot
  find_slot-modify c = find_index?-modify (is_conn c) conns i f (λ pc. rw (keeps pc))

  -- The changed slot.
  pub slot_of-modify_self : slot_of (modify conns i f) conn ≡ Option.map f (slot_of conns conn)
  slot_of-modify_self = rw (find_slot-modify conn, found, slot_of) (get_elem?-modify_self conns i f)

  -- The slots of other connections.
  pub slot_of-modify_ne : (c : Conn) → c ≢ conn → slot_of (modify conns i f) c ≡ slot_of conns c
  slot_of-modify_ne c ne =
      rw (find_slot-modify c, slot_of)
        (elim (Option-cases (find_slot conns c)) [
          | inl e ↦ rw (e, slot_of)
          | inr (j, e) ↦ rw (e, slot_of) (get_elem?-modify_ne conns i j f (apart j e))
        ])
    where
      apart : (j : ℕ) → find_slot conns c ≡ some j → i ≢ j
      apart j e same =
          let (pc, at, holds) = find_slot-some conns conn i found in
          let (pc', at', holds') = find_slot-some conns c j e in ne (ground arith)

-- No connection stands in two slots: the search finds every slot that holds one.
abbrev pub IsDistinct : List ProxyConn → Type 0
IsDistinct conns =
    (i : ℕ) (pc : ProxyConn) (conn : Conn)
    → get_elem? conns i ≡ some pc
    → pc.conn ≡ some conn
    → find_slot conns conn ≡ some i

-- A change of a slot that keeps its connection keeps the slots distinct.
pub modify-IsDistinct :
    (conns : List ProxyConn) (i : ℕ) (f : ProxyConn → ProxyConn)
    → Keeps f
    → IsDistinct conns
    → IsDistinct (modify conns i f)
unfolding find_slot
modify-IsDistinct conns i f keeps d j pc conn at holds =
    find_index?-modify (is_conn conn) conns i f (λ q. rw (keeps q))
    ∙ elim (Option-cases (get_elem? conns j)) [
      | inl e ↦ absurd (ground (arith, get_elem?-modify conns i j f))
      | inr (q, e) ↦ d j q conn e (ground (arith, get_elem?-modify conns i j f, keeps q))
    ]
