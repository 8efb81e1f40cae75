-- ===== src/Ble/Table.antt =====
-- The invariant of the slots of src/ble_gatt.c: one change of a slot, a new connection, and a
-- connection that ends.
pub mod Operations
pub mod Lifecycle
pub mod Reading
pub mod Fresh
pub mod Parked
use meshtastic_ble_proxy.Base.{
  ℕ, zero, suc, ◌+◌, ◌%◌, ◌^◌, ◌≤◌, ◌<◌, ◌≡◌, ◌≢◌, refl, sym, ap, ◌∙◌, Bool, true, false, not,
  Option, none, some, List, [], ◌∷◌, arith, ◌==◌, if◌then◌else◌, length, get_elem?, modify,
  length-modify, get_elem?-modify, find_index?, find_index?-modify, find_index?-get_elem?,
  find_index?-modify_at, find_index?-modify_new, count_if, count_if-modify, count_if_max, All,
  All-modify, All-get_elem?, Option-cases, Bool-cases, inl, inr, ◌⊎◌, ==_refl, subst,
}
use mathlib.Core.Option
use meshtastic_ble_proxy.ProxyProtocol.{proxy_id_size}
use meshtastic_ble_proxy.Ble.State.{
  Conn, ProxyConn, Ble, is_conn, is_free, find_slot, max_ble_connections, cc_frame_size,
}
use meshtastic_ble_proxy.Ble.Connections.Slots.{IsDistinct, find_slot-some, modify-IsDistinct}
use meshtastic_ble_proxy.Ble.Queue.Fifo.{IsValidSlot}

abbrev pub is_held : ProxyConn → Bool
is_held pc = not (is_free pc)

-- A slot's queue, staging buffer and closing frame are within their buffers, and its identifier has
-- four bytes.
pub record IsSound (pc : ProxyConn) : Type 0 where
  pub buffers : IsValidSlot pc
  pub closing : length pc.cc_frame ≡ cc_frame_size
  pub identifier : length pc.proxy_id ≡ proxy_id_size

-- Six slots, all sound, no connection in two of them, and the counter of connections right.
pub record IsValidTable (conns : List ProxyConn) (active_count : ℕ) : Type 0 where
  pub size : length conns ≡ max_ble_connections
  pub sound : All IsSound conns
  pub distinct : IsDistinct conns
  pub counted : active_count ≡ count_if is_held conns

module _ (conns : List ProxyConn) (n : ℕ) (v : IsValidTable conns n) where
  pub slot-IsSound : (i : ℕ) (pc : ProxyConn) → get_elem? conns i ≡ some pc → IsSound pc
  slot-IsSound i pc at = All-get_elem? IsSound conns i pc v.sound at

  modify-IsSound :
      (i : ℕ) (f : ProxyConn → ProxyConn) (pc : ProxyConn)
      → get_elem? conns i ≡ some pc
      → IsSound (f pc)
      → All IsSound (modify conns i f)
  modify-IsSound i f pc at ok =
      All-modify IsSound conns i f (λ q e w. let same : q ≡ pc = cc in rw same ok) v.sound

  -- A change of one slot that keeps its connection.
  pub modify-IsValidTable :
      (i : ℕ) (f : ProxyConn → ProxyConn) (pc : ProxyConn)
      → get_elem? conns i ≡ some pc
      → ((q : ProxyConn) → (f q).conn ≡ q.conn)
      → IsSound (f pc)
      → IsValidTable (modify conns i f) n
  modify-IsValidTable i f pc at keeps ok = record {
    size = length-modify conns i f ∙ v.size;
    sound = modify-IsSound i f pc at ok;
    distinct = modify-IsDistinct conns i f keeps v.distinct;
    counted = ground (arith, v.counted, count_if-modify is_held conns i f pc at, keeps pc);
  }

  -- A slot whose connection becomes another, or none: what is found for a connection that is neither
  -- the old nor the new one.
  found_elsewhere :
      (i : ℕ) (f : ProxyConn → ProxyConn) (old : ProxyConn) (conn : Conn)
      → get_elem? conns i ≡ some old
      → old.conn ≢ some conn
      → (f old).conn ≢ some conn
      → find_slot (modify conns i f) conn ≡ find_slot conns conn
  unfolding find_slot
  found_elsewhere i f old conn at was is =
      find_index?-modify_at (is_conn conn) conns i f old at (ground arith)

  -- A new connection in a free slot.
  pub take_slot-IsValidTable :
      (i : ℕ) (f : ProxyConn → ProxyConn) (old : ProxyConn) (conn : Conn)
      → get_elem? conns i ≡ some old
      → old.conn ≡ none
      → find_slot conns conn ≡ none
      → (f old).conn ≡ some conn
      → IsSound (f old)
      → IsValidTable (modify conns i f) (n + 1)
  unfolding find_slot
  take_slot-IsValidTable i f old conn at free new held ok = record {
    size = length-modify conns i f ∙ v.size;
    sound = modify-IsSound i f old at ok;
    distinct = distinct;
    counted = ground (arith, v.counted, count_if-modify is_held conns i f old at);
  }
    where
      distinct : IsDistinct (modify conns i f)
      distinct j pc c there holds = elim (Bool-cases (i == j)) [
        | inl here ↦
            let e : c ≡ conn = ground (arith, get_elem?-modify conns i j f) in
            let e' : j ≡ i = ground arith in
            rw (e, e')
              (find_index?-modify_new (is_conn conn) conns i f old new at
                (ground (arith, ==_refl conn)))
        | inr other ↦
            let before : get_elem? conns j ≡ some pc =
              ground (arith, get_elem?-modify conns i j f) in
            let found : find_slot conns c ≡ some j = v.distinct j pc c before holds in
            found_elsewhere i f old c at (λ e. ground arith) (λ e. ground arith) ∙ found
      ]

  -- A connection that ends.
  pub leave_slot-IsValidTable :
      (i : ℕ) (f : ProxyConn → ProxyConn) (old : ProxyConn) (conn : Conn)
      → find_slot conns conn ≡ some i
      → get_elem? conns i ≡ some old
      → old.conn ≡ some conn
      → (f old).conn ≡ none
      → IsSound (f old)
      → (m : ℕ) × (n ≡ m + 1) × IsValidTable (modify conns i f) m
  leave_slot-IsValidTable i f old conn found at held freed ok = (
    count_if is_held (modify conns i f),
    ground (arith, v.counted, count_if-modify is_held conns i f old at),
    record {
      size = length-modify conns i f ∙ v.size;
      sound = modify-IsSound i f old at ok;
      distinct = distinct;
      counted = refl;
    },
  )
    where
      distinct : IsDistinct (modify conns i f)
      distinct j pc c there holds = elim (Bool-cases (i == j)) [
        | inl here ↦ absurd (ground (arith, get_elem?-modify conns i j f))
        | inr other ↦
            let before : get_elem? conns j ≡ some pc =
              ground (arith, get_elem?-modify conns i j f) in
            let at_j : find_slot conns c ≡ some j = v.distinct j pc c before holds in
            found_elsewhere i f old c at (λ e. ground arith) (λ e. ground arith) ∙ at_j
      ]
