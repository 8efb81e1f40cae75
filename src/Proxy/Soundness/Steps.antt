-- ===== src/Proxy/Soundness/Steps.antt =====
-- Every order of what can happen to the proxy: frames from the node, phones that come, write, read
-- and go, the keepalive, the session's start, and the serial driver's answers.
use meshtastic_ble_proxy.Base.{
  ℕ, ◌≤◌, ◌≡◌, ◌==◌, refl, sym, subst, inl, inr, Bool, true, false, not, Option, none, Bytes, Rc,
  arith, length, if◌then◌else◌, All,
}
use meshtastic_ble_proxy.Nanopb.{Nanopb}
use meshtastic_ble_proxy.ConfigCache.Layout.{at_boot-IsValid, cache_begin-IsValid}
use meshtastic_ble_proxy.ConfigCache.Frames.{frames-at_boot, frames-begin}
use meshtastic_ble_proxy.Uart.{Tx, tx_work_handler, tx_done}
use meshtastic_ble_proxy.Uart.Transmit.{
  IsSafe, at_boot-IsSafe, tx-IsSafe, handle-IsSafe, done-IsSafe,
}
use meshtastic_ble_proxy.Ble.State.{Conn, find_slot}
use meshtastic_ble_proxy.Ble.Connections.{
  WriteResult, taken, invalid_offset, on_connected, on_disconnected, node_reg_write,
}
use meshtastic_ble_proxy.Ble.Start.{InitAnswers, ble_gatt_init}
use meshtastic_ble_proxy.Ble.Queue.Fifo.{IsPacket}
use meshtastic_ble_proxy.Ble.Reads.{fromradio_read}
use meshtastic_ble_proxy.Ble.Reads.Bounds.{IsServable}
use meshtastic_ble_proxy.Ble.Table.Operations.{at_boot-IsValidBle}
use meshtastic_ble_proxy.Ble.Table.Lifecycle.{
  connected-IsValidBle, disconnected-IsValidBle, node_reg-IsValidBle, init-IsValidBle,
}
use meshtastic_ble_proxy.Ble.Table.Reading.{read-IsValidBle}
use meshtastic_ble_proxy.Upstream.{upstream_at_boot, max_pending, upstream_set_serve_cb}
use meshtastic_ble_proxy.Upstream.Waiting.{IsOnce}
use meshtastic_ble_proxy.Upstream.Outcomes.{keepalive_cases, start_cases}
use meshtastic_ble_proxy.Proxy.{
  Proxy, proxy_at_boot, on_fromradio_uart, toradio_write, on_toradio_ble, keepalive_fires,
  session_starts,
}
use meshtastic_ble_proxy.Proxy.Soundness.{IsSoundProxy, if-IsSound, with_ble}
use meshtastic_ble_proxy.Proxy.Soundness.Node.{from_node-IsSound}
use meshtastic_ble_proxy.Proxy.Soundness.Phones.{on_toradio-IsSound}

module _ (pb : Nanopb) (attr_read : Bytes → ℕ → ℕ → Option Bytes) where
  -- What phones, the proxy's own work items and the calls of `main` do. The Bluetooth stack reports a connection once
  -- while it lasts.
  pub data Local : Proxy → Proxy → Type 0 where
    write :
        (p : Proxy) (conn : Conn) (buf : Bytes) (offset : ℕ)
        → Local p (toradio_write pb p conn buf offset).1
    register :
        (p : Proxy) (conn : Conn) (buf : Bytes) (offset : ℕ)
        → Local p (record p { ble = (node_reg_write p.ble conn buf offset).1 })
    read :
        (p : Proxy) (conn : Conn) (len offset : ℕ)
        → Local p
            (record p { ble = (fromradio_read attr_read pb.tags p.cache p.ble conn len offset).1 })
    connect :
        (p : Proxy) (conn : Conn) (failed : Bool) (answer : Rc)
        → find_slot p.ble.conns conn ≡ none
        → Local p (record p { ble = on_connected p.ble conn failed answer })
    leave :
        (p : Proxy) (conn : Conn) (answer : Rc)
        → Local p (record p { ble = on_disconnected p.ble conn answer })
    keepalive : (p : Proxy) → Local p (keepalive_fires pb p)
    start : (p : Proxy) (rand : ℕ) → Local p (session_starts pb rand p)
    init : (p : Proxy) (a : InitAnswers) → Local p (record p { ble = (ble_gatt_init a p.ble).1 })
    set_callback : (p : Proxy) → Local p (record p { upstream = upstream_set_serve_cb p.upstream })
    transmit :
        (p : Proxy) (accepted : Bool)
        → Local p (record p { tx = (tx_work_handler p.tx accepted).1 })

  -- With what comes from the serial line: frames, which the receiver hands on with at most 512 bytes,
  -- and the ends of transmissions.
  pub data Step : Proxy → Proxy → Type 0 where
    from_node :
        (p : Proxy) (payload : Bytes) → IsPacket payload → Step p (on_fromradio_uart pb p payload)
    transmitted : (p : Proxy) → Step p (record p { tx = tx_done p.tx })
    locally : (p p' : Proxy) → Local p p' → Step p p'

  pub data IsReachable : Proxy → Type 0 where
    boots : IsReachable proxy_at_boot
    next : (p p' : Proxy) → IsReachable p → Step p p' → IsReachable p'

  pub at_boot-IsSound : IsSoundProxy pb proxy_at_boot
  unfolding proxy_at_boot upstream_at_boot
  at_boot-IsSound = record {
    slots = at_boot-IsValidBle;
    servable =
        (at_boot-IsValid pb.tags, subst (All (λ f. IsPacket f.bytes)) (sym frames-at_boot) tt);
    once = tt;
    few = omega arith;
    tx = at_boot-IsSafe;
  }

  module _ (p : Proxy) (w : IsSoundProxy pb p) where
    pub with_tx : (tx : Tx) → IsSafe tx → IsSoundProxy pb (record p { tx = tx })
    with_tx tx v = record {
      slots = w.slots;
      servable = w.servable;
      once = w.once;
      few = w.few;
      tx = v;
    }

    write-IsSound :
        (conn : Conn) (buf : Bytes) (offset : ℕ)
        → IsSoundProxy pb (toradio_write pb p conn buf offset).1
    unfolding toradio_write
    write-IsSound conn buf offset = go (not (offset == 0))
      where
        lit : Proxy
        lit = record p { ble = record (p.ble) { led_toradio_active = true } }

        lit-IsSound : IsSoundProxy pb lit
        lit-IsSound = with_ble pb p w (lit.ble) w.slots

        go :
            (bad : Bool)
            → IsSoundProxy pb (
                let r : WriteResult × Proxy = if bad then (invalid_offset, p) else (
                  taken (length buf),
                  if p.ble.toradio_handler then on_toradio_ble pb lit conn buf else lit,
                ) in
                r.1)
        go true = w
        go false =
            if-IsSound p.ble.toradio_handler (on_toradio-IsSound pb lit lit-IsSound conn buf)
              lit-IsSound

    keepalive-IsSound : IsSoundProxy pb (keepalive_fires pb p)
    unfolding keepalive_fires
    keepalive-IsSound =
        let (waits, sends) = keepalive_cases pb p.upstream p.tx in
        record {
          slots = w.slots;
          servable = w.servable;
          once = subst IsOnce (sym waits) w.once;
          few = subst (λ cs. length cs ≤ max_pending) (sym waits) w.few;
          tx = elim sends [
            | inl e ↦ subst IsSafe (sym e) w.tx
            | inr (buf, e) ↦ subst IsSafe (sym e) (tx-IsSafe p.tx buf w.tx)
          ];
        }

    start-IsSound : (rand : ℕ) → IsSoundProxy pb (session_starts pb rand p)
    unfolding session_starts
    start-IsSound rand = elim (start_cases pb rand p.upstream p.cache p.tx) [
      | inl (waits, same, still) ↦ record {
        slots = w.slots;
        servable = subst (IsServable pb.tags) (sym same) w.servable;
        once = subst IsOnce (sym waits) w.once;
        few = subst (λ cs. length cs ≤ max_pending) (sym waits) w.few;
        tx = subst IsSafe (sym still) w.tx;
      }
      | inr (buf, none_wait, fresh, sent) ↦ record {
        slots = w.slots;
        servable = subst (IsServable pb.tags) (sym fresh) (
          cache_begin-IsValid pb.tags p.cache w.servable.0,
          subst (All (λ f. IsPacket f.bytes)) (sym (frames-begin p.cache)) tt,
        );
        once = subst IsOnce (sym none_wait) tt;
        few = subst (λ cs. length cs ≤ max_pending) (sym none_wait) (omega arith);
        tx = subst IsSafe (sym sent) (tx-IsSafe p.tx buf w.tx);
      }
    ]

  pub local-IsSound : (p p' : Proxy) → Local p p' → IsSoundProxy pb p → IsSoundProxy pb p'
  unfolding upstream_set_serve_cb
  local-IsSound _ _ (write p conn buf offset) w = write-IsSound p w conn buf offset
  local-IsSound _ _ (register p conn buf offset) w =
      with_ble pb p w _ (node_reg-IsValidBle p.ble conn buf offset w.slots)
  local-IsSound _ _ (read p conn len offset) w =
      with_ble pb p w _
        (read-IsValidBle pb attr_read p.ble p.cache conn len offset w.servable w.slots)
  local-IsSound _ _ (connect p conn fails answer new) w =
      with_ble pb p w _ (connected-IsValidBle p.ble conn fails answer new w.slots)
  local-IsSound _ _ (leave p conn answer) w =
      with_ble pb p w _ (disconnected-IsValidBle p.ble conn answer w.slots)
  local-IsSound _ _ (keepalive p) w = keepalive-IsSound p w
  local-IsSound _ _ (start p rand) w = start-IsSound p w rand
  local-IsSound _ _ (init p a) w = with_ble pb p w _ (init-IsValidBle a p.ble w.slots)
  local-IsSound _ _ (set_callback p) w = record {
    slots = w.slots;
    servable = w.servable;
    once = w.once;
    few = w.few;
    tx = w.tx;
  }
  local-IsSound _ _ (transmit p accepted) w =
      with_tx p w _ (handle-IsSafe p.tx.msgq p.tx accepted refl w.tx)

  step-IsSound : (p p' : Proxy) → Step p p' → IsSoundProxy pb p → IsSoundProxy pb p'
  step-IsSound _ _ (from_node p payload small) w = from_node-IsSound pb p w payload small
  step-IsSound _ _ (transmitted p) w = with_tx p w _ (done-IsSafe p.tx w.tx)
  step-IsSound _ _ (locally p p' step) w = local-IsSound p p' step w

  -- In every state that the proxy reaches, whatever the node, the phones and the drivers do and in
  -- whatever order: the slots keep their invariant, the cache is well-formed and every frame in it
  -- fits the buffer that a read stages it in, at most six phones wait and none twice, and the
  -- transmit queue holds at most four packets of at most 512 bytes, each with a run of the work item
  -- to come.
  pub reachable-IsSoundProxy : (p : Proxy) → IsReachable p → IsSoundProxy pb p
  reachable-IsSoundProxy _ boots = at_boot-IsSound
  reachable-IsSoundProxy _ (next p p' before step) =
      step-IsSound p p' step (reachable-IsSoundProxy p before)
