-- ===== src/Ble/Reads/Stream/Order.antt =====
-- Every order of packets and reads in src/ble_gatt.c.
use meshtastic_ble_proxy.Base.{
  ℕ, ◌+◌, ◌%◌, ◌^◌, ◌≡◌, sym, ap, ◌∙◌, Option, some, List, [], ◌∷◌, ◌++◌, arith, length,
  length-append, Bytes, append-nil, append_assoc,
}
use meshtastic_ble_proxy.Nanopb.{Tags}
use meshtastic_ble_proxy.ConfigCache.{Cache}
use meshtastic_ble_proxy.Ble.State.{Conn, ProxyConn, Ble}
use meshtastic_ble_proxy.Ble.Connections.Slots.{slot_of}
use meshtastic_ble_proxy.Ble.Queue.Fifo.{waiting}
use meshtastic_ble_proxy.Ble.Reads.Long.{Between, between, all_between}
use meshtastic_ble_proxy.Ble.Reads.Stream.{
  filled, filled-append, IsLive, accepted, served, gathered,
}
use meshtastic_ble_proxy.Ble.Reads.Stream.Events.{between-Balances}

-- Two balances, one after the other.
balances_join :
    (w ins ins' w' outs outs' w'' : List Bytes)
    → filled (w ++ ins) ≡ filled (outs ++ w')
    → filled (w' ++ ins') ≡ filled (outs' ++ w'')
    → filled (w ++ (ins ++ ins')) ≡ filled ((outs ++ outs') ++ w'')
balances_join w ins ins' w' outs outs' w'' h h' =
    let first : filled w ++ filled ins ≡ filled outs ++ filled w' =
      sym (filled-append w ins) ∙ h ∙ filled-append outs w' in
    let second : filled w' ++ filled ins' ≡ filled outs' ++ filled w'' =
      sym (filled-append w' ins') ∙ h' ∙ filled-append outs' w'' in
    rw
      (
        filled-append w (ins ++ ins'),
        filled-append ins ins',
        filled-append (outs ++ outs') w'',
        filled-append outs outs',
      )
      (sym (append_assoc (filled w) (filled ins) (filled ins'))
        ∙ ap (λ ps. ps ++ filled ins') first
        ∙ append_assoc (filled outs) (filled w') (filled ins')
        ∙ ap (λ ps. filled outs ++ ps) second
        ∙ sym (append_assoc (filled outs) (filled outs') (filled w'')))

module _ (attr_read : Bytes → ℕ → ℕ → Option Bytes) (tags : Tags) (cache : Cache) where
  -- A phone with a slot that is not in a replay: whatever packets are queued for it and others, and
  -- whatever it and others read, in any order and of any number, the packets that waited and those
  -- accepted for it since, in that order, are those that its fresh reads staged and those that still
  -- wait, none lost, doubled or overtaken, empty ones aside; and its counter has gone up by one for
  -- each that was accepted, up to its wrap-around.
  pub stream-balances :
      (conn : Conn) (es : List Between) (b : Ble) (pc : ProxyConn)
      → slot_of b.conns conn ≡ some pc
      → IsLive pc
      → let ins = gathered attr_read tags cache (accepted conn) b es in
        let outs = gathered attr_read tags cache (served attr_read tags cache conn) b es in
        (q : ProxyConn) × (slot_of (all_between attr_read tags cache b es).conns conn ≡ some q)
        × IsLive q
        × (filled (waiting pc ++ ins) ≡ filled (outs ++ waiting q))
        × (q.fromnum % 2 ^ 32 ≡ (pc.fromnum + length ins) % 2 ^ 32)
  unfolding all_between gathered
  stream-balances conn [] b pc at w = (pc, at, w, ap filled (append-nil (waiting pc)), omega arith)
  stream-balances conn (e ∷ es) b pc at w =
      let b' = between attr_read tags cache b e in
      let (q, at', w', order, counter) = between-Balances attr_read tags cache conn b e pc at w in
      let (r, at'', w'', orders, counters) = stream-balances conn es b' q at' w' in
      (
        r,
        at'',
        w'',
        balances_join (waiting pc) (accepted conn b e)
            (gathered attr_read tags cache (accepted conn) b' es) (waiting q)
            (served attr_read tags cache conn b e)
            (gathered attr_read tags cache (served attr_read tags cache conn) b' es) (waiting r)
            order orders,
        omega (
          arith,
          length-append (accepted conn b e) (gathered attr_read tags cache (accepted conn) b' es),
        ),
      )
