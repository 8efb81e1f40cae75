-- ===== src/Firmware/Boot.antt =====
-- What comes of `main` of src/main.c: its code, and what runs once it
-- has come to its endless loop.
use meshtastic_ble_proxy.Base.{
  ℕ, ◌≤◌, ◌%◌, ◌^◌, ◌≡◌, refl, ap, ◌∙◌, true, some, List, [], ◌∷◌, Bytes, Rc, ok, err, ealready,
  enodev, arith, length, if◌then◌else◌, take-all,
}
use meshtastic_ble_proxy.Nanopb.{Nanopb, written}
use meshtastic_ble_proxy.ConfigCache.{cache_begin}
use meshtastic_ble_proxy.Ble.Connections.{ble_gatt_start_advertising}
use meshtastic_ble_proxy.Ble.Start.{ble_gatt_init}
use meshtastic_ble_proxy.Uart.{uart_meshtastic_tx, meshtastic_max_payload}
use meshtastic_ble_proxy.Uart.Driver.{uart_meshtastic_init}
use meshtastic_ble_proxy.Upstream.{
  fetching, plain_nonce, want_config_message, upstream_session_start, upstream_set_serve_cb,
}
use meshtastic_ble_proxy.Proxy.{Proxy, session_starts}
use meshtastic_ble_proxy.Firmware.{
  Firmware, Answers, init_gatt, enable_bluetooth, advertise, init_uart, start_upstream, main,
}

-- The codes that decide, in the order in which they are asked for.
abbrev pub codes : Answers → List Rc
codes a =
    a.bt_enable
    ∷ (elim a.bt_le_adv_start [ ok ↦ ok | err e ↦ elim e [ ealready ↦ ok | e' ↦ err e' ] ])
    ∷ (if a.uart.device_is_ready then ok else err enodev)
    ∷ a.uart.uart_callback_set
    ∷ a.uart.uart_rx_enable
    ∷ []

abbrev pub first_error : List Rc → Rc
first_error [] = ok
first_error (ok ∷ rs) = first_error rs
first_error (err e ∷ rs) = err e

module _ (pb : Nanopb) where
  uart-code :
      (a : Answers) (f : Firmware)
      → (init_uart a f).0
        ≡ first_error (
            (if a.uart.device_is_ready then ok else err enodev)
            ∷ a.uart.uart_callback_set
            ∷ a.uart.uart_rx_enable
            ∷ [])
  unfolding init_uart uart_meshtastic_init
  uart-code a f = ground arith

  -- `main` returns the first error that it is answered, where a device that is not ready counts as
  -- -ENODEV and advertising that has begun already as no error; without one it comes to its loop.
  pub main-code : (a : Answers) (f : Firmware) → (main pb a f).0 ≡ first_error (codes a)
  unfolding main enable_bluetooth advertise init_gatt start_upstream ble_gatt_init
      ble_gatt_start_advertising init_uart uart_meshtastic_init
  main-code a f = ground arith

  -- The state behind all of `main`'s calls, the session's start aside.
  abbrev wired : Answers → Firmware → Firmware
  wired a f =
      let f' = (init_uart a (advertise a (init_gatt a f).1).1).1 in
      record f' { proxy = record (f'.proxy) { upstream = upstream_set_serve_cb f'.proxy.upstream } }

  main-loops :
      (a : Answers) (f : Firmware)
      → first_error (codes a) ≡ ok
      → (main pb a f)
        ≡ (ok, record (wired a f) { proxy = session_starts pb a.rand (wired a f).proxy })
  unfolding main enable_bluetooth advertise init_gatt start_upstream ble_gatt_init
      ble_gatt_start_advertising init_uart uart_meshtastic_init
  main-loops a f h = ground arith

  wired_lem :
      (a : Answers) (f : Firmware)
      → first_error (codes a) ≡ ok
      → let f' = wired a f in
        (f'.proxy.upstream ≡ record (f.proxy.upstream) { serve_cb = true })
        × (f'.proxy.cache ≡ f.proxy.cache)
        × (f'.proxy.tx.msgq ≡ f.proxy.tx.msgq)
        × (f'.proxy.ble.toradio_handler ≡ true)
        × (f'.proxy.ble.conns ≡ f.proxy.ble.conns)
        × (f'.port.uart_dev ≡ true)
        × (f'.port.fromradio_cb ≡ true)
        × (f'.dma.filling ≡ some 0)
        × (f'.port.active_buf ≡ 0)
  unfolding advertise init_gatt ble_gatt_init ble_gatt_start_advertising init_uart
      uart_meshtastic_init upstream_set_serve_cb
  wired_lem a f h = ground arith

  -- A start of the session whose want_config is encoded and has room.
  session_starts_lem :
      (rand : ℕ) (p : Proxy) (buf : Bytes)
      → pb.encode_toradio (want_config_message pb (plain_nonce rand)) pb.toradio_size ≡ written buf
      → length buf ≤ meshtastic_max_payload
      → p.tx.msgq ≡ []
      → let p' = session_starts pb rand p in
        (p'.ble ≡ p.ble)
        × (p'.upstream.state ≡ fetching)
        × (p'.upstream.nonce ≡ plain_nonce rand)
        × (p'.upstream.pending ≡ [])
        × (p'.upstream.serve_cb ≡ p.upstream.serve_cb)
        × (p'.upstream.keepalive_scheduled ≡ true)
        × (p'.cache ≡ cache_begin p.cache)
        × (p'.tx.msgq ≡ buf ∷ [])
        × (p'.tx.submitted ≡ true)
  unfolding session_starts upstream_session_start uart_meshtastic_tx
  session_starts_lem rand p buf e small none_wait =
      ground (arith, take-all (length buf % 2 ^ 16) buf)

  -- Where no call fails, the node's config is asked for: the want_config of a nonce that is neither 0
  -- nor 1 is the one packet queued, with the work item submitted, the session fetches into an empty
  -- cache, the replay callback, both handlers and the serial device are set, and the driver fills DMA
  -- buffer 0. No phone waits in the session, also where one was parked before; the slots are as they
  -- were.
  pub main-starts :
      (a : Answers) (f : Firmware) (buf : Bytes)
      → first_error (codes a) ≡ ok
      → pb.encode_toradio (want_config_message pb (plain_nonce a.rand)) pb.toradio_size
        ≡ written buf
      → length buf ≤ meshtastic_max_payload
      → f.proxy.tx.msgq ≡ []
      → let (rc, f') = main pb a f in
        (rc ≡ ok)
        × (f'.proxy.tx.msgq ≡ buf ∷ [])
        × (f'.proxy.tx.submitted ≡ true)
        × (f'.proxy.upstream.state ≡ fetching)
        × (f'.proxy.upstream.nonce ≡ plain_nonce a.rand)
        × (f'.proxy.upstream.pending ≡ [])
        × (f'.proxy.ble.conns ≡ f.proxy.ble.conns)
        × (f'.proxy.upstream.serve_cb ≡ true)
        × (f'.proxy.upstream.keepalive_scheduled ≡ true)
        × (f'.proxy.cache ≡ cache_begin f.proxy.cache)
        × (f'.proxy.ble.toradio_handler ≡ true)
        × (f'.port.uart_dev ≡ true)
        × (f'.port.fromradio_cb ≡ true)
        × (f'.dma.filling ≡ some 0)
        × (f'.port.active_buf ≡ 0)
  main-starts a f buf no_error encoded small none_wait =
      let (u, cache, queue, handler, slots, dev, cb, filling, active) = wired_lem a f no_error in
      let (b, state, nonce, pending, serve, alive, fresh, asked, submitted) =
        session_starts_lem a.rand (wired a f).proxy buf encoded small (queue ∙ none_wait) in
      rw (main-loops a f no_error) (
        refl,
        asked,
        submitted,
        state,
        nonce,
        pending,
        ap (λ s. s.conns) b ∙ slots,
        serve ∙ ap (λ s. s.serve_cb) u,
        alive,
        fresh ∙ ap cache_begin cache,
        ap (λ s. s.toradio_handler) b ∙ handler,
        dev,
        cb,
        filling,
        active,
      )
