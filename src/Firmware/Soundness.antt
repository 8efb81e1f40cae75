-- ===== src/Firmware/Soundness.antt =====
-- The invariant of the whole firmware, from `main` on: the driver's events, the work items, the
-- phones and the node's bytes in any order.
use meshtastic_ble_proxy.Base.{false, ℕ, ◌≡◌, refl, Option, List, [], ◌∷◌, Bytes, Rc, ok, err, All}
use meshtastic_ble_proxy.Nanopb.{Nanopb}
use meshtastic_ble_proxy.Uart.{Tx, tx_at_boot}
use meshtastic_ble_proxy.Uart.Receive.{IsFrame}
use meshtastic_ble_proxy.Uart.Transmit
use meshtastic_ble_proxy.Uart.Transmit.{at_boot-IsSafe}
use meshtastic_ble_proxy.Uart.Driver.{RingBufPut, IsRingBufPut, rx_work, led_blink_work}
use meshtastic_ble_proxy.Uart.Driver.Line.{stopped_dma, Line, DriverStep, IsSoundLine}
use meshtastic_ble_proxy.Uart.Driver.Line.Start.{init-IsSoundLine, at_boot-IsSoundPort}
use meshtastic_ble_proxy.Uart.Driver.Line.Safety.{
  driver-IsSoundLine, work-IsSoundLine, blink-IsSoundLine,
}
use meshtastic_ble_proxy.Ble.State.{Ble}
use meshtastic_ble_proxy.Ble.Start
use meshtastic_ble_proxy.Ble.Table.Operations.{IsValidBle}
use meshtastic_ble_proxy.Upstream.{upstream_set_serve_cb}
use meshtastic_ble_proxy.Ble.Table.Lifecycle.{init-IsValidBle, advertising-IsValidBle}
use meshtastic_ble_proxy.Proxy.{Proxy, proxy_at_boot, session_starts, on_fromradio_uart, on_frames}
use meshtastic_ble_proxy.Proxy.Soundness.{IsSoundProxy, with_ble}
use meshtastic_ble_proxy.Proxy.Soundness.Node.{from_node-IsSound}
use meshtastic_ble_proxy.Proxy.Soundness.Steps.{
  Local, set_callback, start, local-IsSound, at_boot-IsSound, with_tx,
}
use meshtastic_ble_proxy.Firmware.{
  Firmware, firmware_at_boot, line_of, with_line, Answers, main, receives, init_gatt,
  enable_bluetooth, advertise, init_uart, start_upstream, Call, ◌>>◌,
}

module _ (pb : Nanopb) (attr_read : Bytes → ℕ → ℕ → Option Bytes) (ring_buf_put : RingBufPut) where
  -- The work items run one at a time; `main` has come to its endless loop before the first step.
  pub data Step : Firmware → Firmware → Type 0 where
    driver :
        (f : Firmware) (l : Line) → DriverStep ring_buf_put (line_of f) l → Step f (with_line f l)
    receive : (f : Firmware) → Step f (receives pb f)
    blink_uart : (f : Firmware) → Step f (record f { port = led_blink_work f.port })
    blink_ble :
        (f : Firmware)
        → Step f (record f { proxy = record (f.proxy) { ble = Start.led_blink_work f.proxy.ble } })
    locally :
        (f : Firmware) (p : Proxy) → Local pb attr_read f.proxy p → Step f (record f { proxy = p })

  -- `main` may also have failed; the callbacks run then all the same.
  pub data IsReachable : Firmware → Type 0 where
    boots : (a : Answers) → IsReachable (main pb a firmware_at_boot).1
    moves : (f f' : Firmware) → IsReachable f → Step f f' → IsReachable f'

  pub record IsSound (f : Firmware) : Type 0 where
    pub proxy : IsSoundProxy pb f.proxy
    pub line : IsSoundLine (line_of f)

  module _ (law : IsRingBufPut ring_buf_put) where
    with_line-tx :
        {l : Line} {tx : Tx}
        → IsSoundLine l
        → Transmit.IsSafe tx
        → IsSoundLine (record l { tx = tx })
    with_line-tx w v = record { port = w.port; tx = v; apart = w.apart }

    on_frames-IsSound :
        (p : Proxy) (frames : List Bytes)
        → IsSoundProxy pb p
        → All IsFrame frames
        → IsSoundProxy pb (on_frames pb p frames)
    unfolding on_frames
    on_frames-IsSound p [] w h = w
    on_frames-IsSound p (frame ∷ frames) w h =
        on_frames-IsSound (on_fromradio_uart pb p frame) frames
          (from_node-IsSound pb p w frame (h.0.1)) (h.1)

    receives-IsSound : (f : Firmware) → IsSound f → IsSound (receives pb f)
    unfolding receives
    receives-IsSound f w =
        let (line, sizes) = work-IsSoundLine (line_of f) w.line in
        let proxy = on_frames-IsSound f.proxy (rx_work f.port).1 w.proxy sizes in
        record { proxy = proxy; line = with_line-tx line proxy.tx }

    pub step-IsSound : (f f' : Firmware) → Step f f' → IsSound f → IsSound f'
    unfolding Start.led_blink_work
    step-IsSound _ _ (driver f l step) w =
        let v = driver-IsSoundLine ring_buf_put law (line_of f) l step w.line in
        record { proxy = with_tx pb attr_read f.proxy w.proxy l.tx v.tx; line = v }
    step-IsSound _ _ (receive f) w = receives-IsSound f w
    step-IsSound _ _ (blink_uart f) w = record {
      proxy = w.proxy;
      line = blink-IsSoundLine (line_of f) w.line;
    }
    step-IsSound _ _ (blink_ble f) w = record {
      proxy = with_ble pb f.proxy w.proxy _ w.proxy.slots;
      line = w.line;
    }
    step-IsSound _ _ (locally f p step) w =
        let v = local-IsSound pb attr_read f.proxy p step w.proxy in
        record { proxy = v; line = with_line-tx w.line v.tx }

    -- `main` up to the start of the serial port: sound, with no transmission in progress and no buffer handed over.
    pub record IsFresh (f : Firmware) : Type 0 where
      pub sound : IsSound f
      pub not_sending : f.proxy.tx.in_progress ≡ false
      pub no_buffers : f.dma ≡ stopped_dma

    pub firmware_at_boot-IsFresh : IsFresh firmware_at_boot
    unfolding firmware_at_boot proxy_at_boot tx_at_boot
    firmware_at_boot-IsFresh = record {
      sound = record {
        proxy = at_boot-IsSound pb attr_read;
        line = record { port = at_boot-IsSoundPort; tx = at_boot-IsSafe; apart = refl };
      };
      not_sending = refl;
      no_buffers = refl;
    }

    pub with_ble-IsFresh :
        (f : Firmware) (b : Ble)
        → IsFresh f
        → IsValidBle b
        → IsFresh (record f { proxy = record (f.proxy) { ble = b } })
    with_ble-IsFresh f b w v = record {
      sound = record { proxy = with_ble pb f.proxy w.sound.proxy b v; line = w.sound.line };
      not_sending = w.not_sending;
      no_buffers = w.no_buffers;
    }

    pub init_gatt-IsFresh : (a : Answers) (f : Firmware) → IsFresh f → IsFresh (init_gatt a f).1
    unfolding init_gatt
    init_gatt-IsFresh a f w =
        with_ble-IsFresh f _ w (init-IsValidBle a.gatt f.proxy.ble w.sound.proxy.slots)

    pub advertise-IsFresh : (a : Answers) (f : Firmware) → IsFresh f → IsFresh (advertise a f).1
    unfolding advertise
    advertise-IsFresh a f w =
        with_ble-IsFresh f _ w
          (advertising-IsValidBle f.proxy.ble a.bt_le_adv_start w.sound.proxy.slots)

    pub init_uart-IsSound : (a : Answers) (f : Firmware) → IsFresh f → IsSound (init_uart a f).1
    unfolding init_uart
    init_uart-IsSound a f w =
        let line = init-IsSoundLine a.uart (line_of f) w.sound.line w.not_sending w.no_buffers in
        record { proxy = with_tx pb attr_read f.proxy w.sound.proxy _ line.tx; line = line }

    pub start_upstream-IsSound :
        (a : Answers) (f : Firmware) → IsSound f → IsSound (start_upstream pb a f).1
    unfolding start_upstream
    start_upstream-IsSound a f w =
        let wired = record (f.proxy) { upstream = upstream_set_serve_cb f.proxy.upstream } in
        let v =
          local-IsSound pb attr_read wired (session_starts pb a.rand wired) (start wired a.rand)
            (local-IsSound pb attr_read f.proxy wired (set_callback f.proxy) w.proxy) in
        record { proxy = v; line = with_line-tx w.line v.tx }

    >>-IsSound :
        (m k : Call) (f : Firmware)
        → IsSound (m f).1
        → IsSound (k (m f).1).1
        → IsSound ((m >> k) f).1
    >>-IsSound m k f failed went_on = go (m f).0
      where
        go :
            (rc : Rc)
            → IsSound (
                let r : Rc × Firmware = elim rc [ err e ↦ (err e, (m f).1) | ok ↦ k (m f).1 ] in
                r.1)
        go ok = went_on
        go (err e) = failed

    main-IsSound : (a : Answers) → IsSound (main pb a firmware_at_boot).1
    unfolding main enable_bluetooth
    main-IsSound a =
        let set = init_gatt-IsFresh a firmware_at_boot firmware_at_boot-IsFresh in
        let f = (init_gatt a firmware_at_boot).1 in
        let advertised = advertise-IsFresh a f set in
        let f' = (advertise a f).1 in
        let wired = init_uart-IsSound a f' advertised in
        let f'' = (init_uart a f').1 in
        let last = init_uart a >> start_upstream pb a in
        let later = advertise a >> last in
        >>-IsSound (init_gatt a) (enable_bluetooth a >> later) firmware_at_boot set.sound (
          >>-IsSound (enable_bluetooth a) later f set.sound (
            >>-IsSound (advertise a) last f advertised.sound (
              >>-IsSound (init_uart a) (start_upstream pb a) f' wired
                (start_upstream-IsSound a f'' wired))))

    -- From `main` on, whatever it is answered, and whatever the node sends, the drivers report and
    -- the phones do, in whatever order: the slots keep their invariant, every cached frame fits the
    -- buffer that a read stages it in, at most six phones wait and none twice, the receiver and the
    -- ring buffer stay within their bounds, bytes and packets that wait have a run of their work item
    -- to come, and the driver's two DMA buffers are never the same one.
    pub reachable-IsSound : (f : Firmware) → IsReachable f → IsSound f
    reachable-IsSound _ (boots a) = main-IsSound a
    reachable-IsSound _ (moves f f' before step) =
        step-IsSound f f' step (reachable-IsSound f before)
