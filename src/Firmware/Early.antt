-- ===== src/Firmware/Early.antt =====
-- What `main` of src/main.c leaves open between its start of advertising and the start of the serial
-- port: phones can connect and write by then.
use meshtastic_ble_proxy.Base.{
  ◌∙◌, refl, ap, inl, inr, ◌≤◌, ◌≡◌, true, false, Bytes, Rc, arith, length, ok, some, none, subst,
}
use meshtastic_ble_proxy.Nanopb.{Nanopb}
use meshtastic_ble_proxy.Proto.{proto_decode_toradio}
use meshtastic_ble_proxy.Ble.State.{Ble, Conn, ProxyConn, find_slot, ble_at_boot}
use meshtastic_ble_proxy.Ble.Connections.{on_connected, ble_gatt_start_advertising}
use meshtastic_ble_proxy.Uart.{
  tx_at_boot, uart_meshtastic_tx, tx_work_handler, frame_of, sent, meshtastic_max_payload,
}
use meshtastic_ble_proxy.Ble.Connections.Slots.{slot_of}
use meshtastic_ble_proxy.Ble.Table.Fresh.{IsFresh, on_connected-IsFresh}
use meshtastic_ble_proxy.Ble.Table.Operations.{at_boot-IsValidBle}
use meshtastic_ble_proxy.Uart.Transmit.{first_packet}
use meshtastic_ble_proxy.Ble.Start.{ble_gatt_init}
use meshtastic_ble_proxy.Uart.Driver.{port_at_boot}
use meshtastic_ble_proxy.Proxy.{proxy_at_boot, Proxy, toradio_write, on_toradio_ble}
use meshtastic_ble_proxy.Proxy.Phones.{is_answered, toradio-forwards}
use meshtastic_ble_proxy.Firmware.{
  Firmware, Answers, firmware_at_boot, init_gatt, advertise, enable_bluetooth, ◌>>◌,
}

-- The calls of `main` before the start of the serial port, from boot on.
unfoldable pub advertised : Answers → Rc × Firmware
advertised a = (do init_gatt a; enable_bluetooth a; advertise a) firmware_at_boot

-- What they have set when they come to their end without an error.
advertised-last :
    (a : Answers) (f : Firmware)
    → advertised a ≡ (ok, f)
    → (advertise a (init_gatt a firmware_at_boot).1).1 ≡ f
unfolding advertised enable_bluetooth advertise init_gatt ble_gatt_init ble_gatt_start_advertising
advertised-last a f e = ground arith

advertised_lem :
    (a : Answers)
    → let f = (advertise a (init_gatt a firmware_at_boot).1).1 in
      (f.proxy.tx ≡ tx_at_boot)
      × (f.proxy.ble.toradio_handler ≡ true)
      × (f.port.uart_dev ≡ false)
      × (f.proxy.ble.conns ≡ ble_at_boot.conns)
      × (f.proxy.ble.active_conn_count ≡ 0)
unfolding advertise init_gatt ble_gatt_init ble_gatt_start_advertising firmware_at_boot
    proxy_at_boot port_at_boot
advertised_lem a = ground arith

-- No phone has a slot at boot.
at_boot-unfound : (conn : Conn) → find_slot ble_at_boot.conns conn ≡ none
unfolding find_slot
at_boot-unfound conn = refl

-- The proxy with the LED flag that every accepted write sets.
abbrev lit : Proxy → Proxy
lit p = record p { ble = record (p.ble) { led_toradio_active = true } }

connected-handler :
    (b : Ble) (conn : Conn) (answer : Rc)
    → (on_connected b conn false answer).toradio_handler ≡ b.toradio_handler
unfolding on_connected ble_gatt_start_advertising
connected-handler b conn answer = ground arith

module _ (pb : Nanopb) where
  -- A write with a registered handler.
  handled_write :
      (p : Proxy) (conn : Conn) (payload : Bytes)
      → p.ble.toradio_handler ≡ true
      → (toradio_write pb p conn payload 0).1 ≡ on_toradio_ble pb (lit p) conn payload
  unfolding toradio_write
  handled_write p conn payload handler = rw (toradio_write, handler)

  -- When `main` has started to advertise without an error, a phone that connects is given a slot, and
  -- a packet of at most 512 bytes that it writes then, other than a want_config and a heartbeat, makes
  -- the transmit work item give its frame to `uart_tx`, while `uart_dev` is not set yet.
  pub early_write-sent :
      (a : Answers) (f : Firmware) (conn : Conn) (answer : Rc) (payload : Bytes)
      → advertised a ≡ (ok, f)
      → is_answered (proto_decode_toradio pb payload) ≡ false
      → length payload ≤ meshtastic_max_payload
      → let p = record (f.proxy) { ble = on_connected f.proxy.ble conn false answer } in
        let p' = (toradio_write pb p conn payload 0).1 in
        (pc : ProxyConn) × (slot_of p.ble.conns conn ≡ some pc)
        × IsFresh pc
        × (f.port.uart_dev ≡ false)
        × ((tx_work_handler p'.tx true).0 ≡ sent (frame_of payload))
  early_write-sent a f conn answer payload e forwarded small =
      let p = record (f.proxy) { ble = on_connected f.proxy.ble conn false answer } in
      let last = advertised-last a f e in
      let (fresh, registered, no_device, slots, nobody) =
        subst
          (λ g.
            (g.proxy.tx ≡ tx_at_boot)
            × (g.proxy.ble.toradio_handler ≡ true)
            × (g.port.uart_dev ≡ false)
            × (g.proxy.ble.conns ≡ ble_at_boot.conns)
            × (g.proxy.ble.active_conn_count ≡ 0))
          last (advertised_lem a) in
      let (pc, at, new, _) =
        on_connected-IsFresh f.proxy.ble conn answer (rw (slots, nobody) at_boot-IsValidBle)
          (rw slots (at_boot-unfound conn)) (rw nobody (omega arith)) in
      let handler : p.ble.toradio_handler ≡ true =
        connected-handler f.proxy.ble conn answer ∙ registered in
      let forwards : (on_toradio_ble pb (lit p) conn payload).tx
          ≡ (uart_meshtastic_tx tx_at_boot payload).1 =
        elim (toradio-forwards pb (lit p) conn payload).2 [
          | inl (own, e) ↦ absurd (ground arith)
          | inr (own, tx, _, _) ↦ tx ∙ ap (λ t. (uart_meshtastic_tx t payload).1) fresh
        ] in
      (
        pc,
        at,
        new,
        no_device,
        rw (handled_write p conn payload handler, forwards) (first_packet payload small),
      )
