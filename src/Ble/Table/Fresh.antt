-- ===== src/Ble/Table/Fresh.antt =====
-- The slot that src/ble_gatt.c gives a phone that connects, and what a phone that goes leaves.
use mathlib.Core.Option
use meshtastic_ble_proxy.Base.{
  ℕ, ◌≡◌, ◌≢◌, ◌<◌, refl, sym, ap, ◌∙◌, true, false, none, some, List, [], ◌∷◌, arith, ◌==◌, length,
  get_elem?, modify, find_index?, find_index?-get_elem?, find_index?-modify_at,
  find_index?-modify_new, get_elem?-modify_self, get_elem?-modify_ne, get_elem?-modify, count_if,
  count_if_max, zero, suc, replicate, Option-cases, Bool-cases, inl, inr, Rc,
}
use meshtastic_ble_proxy.ProxyProtocol.{proxy_id_size}
use meshtastic_ble_proxy.Ble.State.{
  Conn, connected, ProxyConn, Ble, is_conn, is_free, find_slot, max_ble_connections, cc_frame_size,
}
use meshtastic_ble_proxy.Ble.Connections.{
  reset_slot, alloc_slot, free_slot, on_connected, on_disconnected, ble_gatt_start_advertising,
}
use meshtastic_ble_proxy.Ble.Connections.Slots.{slot_of, find_slot-some, IsDistinct}
use meshtastic_ble_proxy.Ble.Queue.Fifo.{waiting}
use meshtastic_ble_proxy.Ble.Table.{is_held, slot-IsSound}
use meshtastic_ble_proxy.Ble.Table.Operations.{IsValidBle}
use meshtastic_ble_proxy.Ble.Table.Lifecycle.{disconnected-IsValidBle}

-- Without a free slot all are held.
all_held :
    (conns : List ProxyConn)
    → find_index? is_free conns ≡ none
    → count_if is_held conns ≡ length conns
all_held [] e = refl
all_held (pc ∷ conns) e = ground (arith, all_held conns)

on_connected-conns :
    (b : Ble) (conn : Conn) (answer : Rc) (i : ℕ)
    → find_index? is_free b.conns ≡ some i
    → (on_connected b conn false answer).conns ≡ modify b.conns i (reset_slot (some conn))
unfolding on_connected alloc_slot ble_gatt_start_advertising
on_connected-conns b conn answer i e = ground (arith, e)

on_disconnected-conns :
    (b : Ble) (conn : Conn) (answer : Rc) (i : ℕ)
    → find_slot b.conns conn ≡ some i
    → (on_disconnected b conn answer).conns ≡ modify b.conns i (reset_slot none)
unfolding on_disconnected free_slot ble_gatt_start_advertising
on_disconnected-conns b conn answer i e = ground (arith, e)

-- Slots of other phones, when a free one is taken.
taken-others :
    (conns : List ProxyConn) (i : ℕ) (conn : Conn) (old : ProxyConn)
    → get_elem? conns i ≡ some old
    → is_free old ≡ true
    → (other : Conn) → other ≢ conn
    → slot_of (modify conns i (reset_slot (some conn))) other ≡ slot_of conns other
unfolding find_slot
taken-others conns i conn old at free other ne =
    let f = reset_slot (some conn) in
    let same : find_slot (modify conns i f) other ≡ find_slot conns other =
      find_index?-modify_at (is_conn other) conns i f old at (ground arith) in
    rw (slot_of, same)
      (elim (Option-cases (find_slot conns other)) [
        | inl e ↦ rw (e, slot_of)
        | inr (j, e) ↦
            let (pc, at', held) = find_slot-some conns other j e in
            let apart : i ≢ j = λ h. ground arith in
            rw (e, slot_of) (get_elem?-modify_ne conns i j f apart)
      ])

-- What a phone finds in its slot when it has just connected.
pub record IsFresh (pc : ProxyConn) : Type 0 where
  pub state : pc.state ≡ connected
  pub none_wait : waiting pc ≡ []
  pub none_staged : pc.staged ≡ []
  pub nonce : pc.nonce ≡ 0
  pub fromnum : pc.fromnum ≡ 0
  pub unregistered : pc.proxy_id ≡ replicate proxy_id_size 0
  pub closing : length pc.cc_frame ≡ cc_frame_size

-- A phone that connects while fewer than six are connected is given a slot in which nothing of an
-- earlier phone waits or is staged, with its counter, nonce and identifier 0; every other phone's slot is as
-- before.
pub on_connected-IsFresh :
    (b : Ble) (conn : Conn) (answer : Rc)
    → IsValidBle b
    → find_slot b.conns conn ≡ none
    → b.active_conn_count < max_ble_connections
    → let b' = on_connected b conn false answer in
      (pc : ProxyConn) × (slot_of b'.conns conn ≡ some pc)
      × IsFresh pc
      × ((other : Conn) → other ≢ conn → slot_of b'.conns other ≡ slot_of b.conns other)
unfolding find_slot
on_connected-IsFresh b conn answer v new room = elim (Option-cases (find_index? is_free b.conns)) [
  | inl e ↦ absurd (omega (arith, all_held b.conns e, v.size, v.counted))
  | inr (i, e) ↦
      let (old, at, free) = find_index?-get_elem? is_free b.conns i e in
      let w = slot-IsSound b.conns b.active_conn_count v i old at in
      let f = reset_slot (some conn) in
      let here : find_slot (modify b.conns i f) conn ≡ some i =
        find_index?-modify_new (is_conn conn) b.conns i f old new at (ground arith) in
      rw (on_connected-conns b conn answer i e) (
        f old,
        rw (slot_of, here) (get_elem?-modify_self b.conns i f ∙ ap (Option.map f) at),
        record {
          state = refl;
          none_wait = refl;
          none_staged = refl;
          nonce = refl;
          fromnum = refl;
          unregistered = refl;
          closing = w.closing;
        },
        λ other ne. taken-others b.conns i conn old at free other ne,
      )
]

-- A phone that goes leaves no slot that holds it.
pub on_disconnected-gone :
    (b : Ble) (conn : Conn) (answer : Rc)
    → IsDistinct b.conns
    → find_slot (on_disconnected b conn answer).conns conn ≡ none
unfolding on_disconnected ble_gatt_start_advertising
on_disconnected-gone b conn answer d = elim (Option-cases (find_slot b.conns conn)) [
  | inl e ↦
      let same : (on_disconnected b conn answer).conns ≡ b.conns = ground (arith, e) in rw same e
  | inr (i, e) ↦
      let left = modify b.conns i (reset_slot none) in
      rw (on_disconnected-conns b conn answer i e) (elim (Option-cases (find_slot left conn)) [
        | inl gone ↦ gone
        | inr (j, found) ↦
            let (pc, at, held) = find_slot-some left conn j found in
            let changed = get_elem?-modify b.conns i j (reset_slot none) in
            elim (Bool-cases (i == j)) [
              | inl same ↦
                  let (old, place, _) = find_slot-some b.conns conn i e in
                  let index : i ≡ j = ground arith in
                  let emptied : get_elem? left j ≡ some (reset_slot none old) =
                    ap (get_elem? left) (sym index)
                    ∙ get_elem?-modify_self b.conns i (reset_slot none)
                    ∙ ap (Option.map (reset_slot none)) place in
                  let reset : pc ≡ reset_slot none old = cc in absurd (ground arith)
              | inr other ↦
                  let before : get_elem? b.conns j ≡ some pc = ground (arith, changed) in
                  let first = d j pc conn before held in absurd (ground arith)
            ]
      ])
]

-- A list with an item that fails the test.
count_if-below :
    (conns : List ProxyConn) (i : ℕ) (pc : ProxyConn)
    → get_elem? conns i ≡ some pc
    → is_held pc ≡ false
    → count_if is_held conns < length conns
count_if-below [] i pc at free = absurd (cc)
count_if-below (q ∷ conns) zero pc at free =
    let same : q ≡ pc = cc in
    let unheld : is_held q ≡ false = rw same free in ground (arith, count_if_max is_held conns)
count_if-below (q ∷ conns) (suc i) pc at free = ground (arith, count_if-below conns i pc at free)

-- It makes room for another.
pub on_disconnected-room :
    (b : Ble) (conn : Conn) (pc : ProxyConn) (answer : Rc)
    → IsValidBle b
    → slot_of b.conns conn ≡ some pc
    → (on_disconnected b conn answer).active_conn_count < max_ble_connections
on_disconnected-room b conn pc answer v at = elim (Option-cases (find_slot b.conns conn)) [
  | inl e ↦ absurd (ground arith)
  | inr (i, e) ↦
      let w = disconnected-IsValidBle b conn answer v in
      let (old, place, _) = find_slot-some b.conns conn i e in
      let emptied : get_elem? (on_disconnected b conn answer).conns i ≡ some (reset_slot none old) =
        ap (λ cs. get_elem? cs i) (on_disconnected-conns b conn answer i e)
        ∙ get_elem?-modify_self b.conns i (reset_slot none)
        ∙ ap (Option.map (reset_slot none)) place in
      omega (
        arith,
        w.counted,
        w.size,
        count_if-below (on_disconnected b conn answer).conns i (reset_slot none old) emptied refl,
      )
]
