-- ===== src/Uart/Driver/Line/Start.antt =====
-- `uart_meshtastic_init` of src/uart_meshtastic.c starts a sound line.
use meshtastic_ble_proxy.Base.{
  ℕ, ◌≡◌, ◌≢◌, refl, sym, subst, false, arith, Rc, ok, err, ◌⊎◌, inl, inr,
}
use meshtastic_ble_proxy.Uart.{rx_at_boot, Tx, tx_at_boot}
use meshtastic_ble_proxy.Uart.Transmit
use meshtastic_ble_proxy.Uart.Transmit.{at_boot-IsSafe, tx-IsSafe, handle-IsSafe, done-IsSafe}
use meshtastic_ble_proxy.Uart.Driver.{
  Port, port_at_boot, DriverCall, nothing, uart_rx_buf_rsp, uart_rx_enable, InitAnswers,
  uart_meshtastic_init,
}
use meshtastic_ble_proxy.Uart.Driver.Line.{
  stopped_dma, takes, accepts, Line, started, Apart, IsSoundPort, IsSoundLine,
}

pub at_boot-IsSoundPort : IsSoundPort port_at_boot
unfolding port_at_boot rx_at_boot
at_boot-IsSoundPort = record {
  sm = record { buffer = refl; in_bounds = tt };
  ring = omega arith;
  driven = inl refl;
  active = omega arith;
}

-- `uart_meshtastic_init` keeps a sound port, and hands buffer 0 over where it comes to that.
init-IsSoundPort :
    (a : InitAnswers) (port : Port) (tx : Tx)
    → IsSoundPort port
    → let (rc, call, port', tx') = uart_meshtastic_init a port tx in
      IsSoundPort port'
      × (tx' ≡ record tx { in_progress = false })
      × ((rc ≢ ok) ⊎ ((call ≡ uart_rx_enable 0) × (port'.active_buf ≡ 0)))
unfolding uart_meshtastic_init
init-IsSoundPort a port tx v = ground arith

handed-Apart :
    (rc : Rc) (call : DriverCall) (active : ℕ)
    → (rc ≢ ok) ⊎ ((call ≡ uart_rx_enable 0) × (active ≡ 0))
    → let d = takes stopped_dma (accepts rc) call in Apart d.filling d.spare d.asked active
handed-Apart (err e) call active h = refl
handed-Apart ok call active (inl no_ok) = absurd (no_ok refl)
handed-Apart ok nothing active (inr (e, z)) = cc
handed-Apart ok (uart_rx_buf_rsp n) active (inr (e, z)) = cc
handed-Apart ok (uart_rx_enable n) active (inr (e, z)) = ground arith

-- `uart_meshtastic_init` on a line with no transmission in progress whose driver holds no buffer.
pub init-IsSoundLine :
    (a : InitAnswers) (l : Line)
    → IsSoundLine l
    → l.tx.in_progress ≡ false
    → l.dma ≡ stopped_dma
    → let (rc, call, port, tx) = uart_meshtastic_init a l.port l.tx in
      IsSoundLine (record { port = port; tx = tx; dma = takes l.dma (accepts rc) call })
init-IsSoundLine a l w not_sending no_buffers =
    let (rc, call, port, tx) = uart_meshtastic_init a l.port l.tx in
    let (sound, idle, handed) = init-IsSoundPort a l.port l.tx w.port in
    record {
      port = sound;
      tx =
          subst Transmit.IsSafe (sym idle)
            (record { depth = w.tx.depth; sizes = w.tx.sizes; driven = ground arith });
      apart =
          subst
            (λ d.
              let d' = takes d (accepts rc) call in
              Apart d'.filling d'.spare d'.asked port.active_buf)
            (sym no_buffers) (handed-Apart rc call port.active_buf handed);
    }

pub started-IsSound : (a : InitAnswers) → IsSoundLine (started a)
unfolding started tx_at_boot
started-IsSound a =
    init-IsSoundLine a (record { port = port_at_boot; tx = tx_at_boot; dma = stopped_dma })
      (record { port = at_boot-IsSoundPort; tx = at_boot-IsSafe; apart = refl }) refl refl
