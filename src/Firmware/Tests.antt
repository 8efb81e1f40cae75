-- ===== src/Firmware/Tests.antt =====
-- The firmware on concrete bytes, answers and events.
use meshtastic_ble_proxy.Base.{
  ◌+◌, ◌≡◌, refl, inl, true, false, some, List, [], ◌∷◌, ◌++◌, map, length, arith, ok, err,
  ealready,
}
use meshtastic_ble_proxy.Nanopb.Sample.{sample_tags, sample_nanopb, sample_tags-HasDistinctTags}
use meshtastic_ble_proxy.Proto.{proto_decode_toradio, proto_decode_fromradio}
use meshtastic_ble_proxy.ConfigCache.{cache_begin}
use meshtastic_ble_proxy.ConfigCache.Frames.{frames}
use meshtastic_ble_proxy.ConfigCache.Segments.{segment}
use meshtastic_ble_proxy.Uart.{tx_at_boot, frame_of, tx_work_handler, sent}
use meshtastic_ble_proxy.Uart.Receive.{Chunk}
use meshtastic_ble_proxy.Uart.Driver.{
  uart_meshtastic_init, port_at_boot, rx_rdy, rx_buf_request, uart_cb, rx_work,
}
use meshtastic_ble_proxy.Uart.Driver.Delivery.{RxEvent, event, run, rx_events}
use meshtastic_ble_proxy.Uart.Sample.{
  rx_at_boot-IsIdle, what_fits, what_fits-IsRingBufPut, open_port,
}
use meshtastic_ble_proxy.Ble.State.{ProxyConn, find_slot}
use meshtastic_ble_proxy.Ble.Connections.Slots.{slot_of}
use meshtastic_ble_proxy.Ble.Table.Fresh.{IsFresh}
use meshtastic_ble_proxy.Ble.Reads.Replay.{fresh_reads}
use meshtastic_ble_proxy.Upstream.{live, fetching, plain_nonce}
use meshtastic_ble_proxy.Upstream.Session.{cached}
use meshtastic_ble_proxy.Proxy.{proxy_at_boot, toradio_write}
use meshtastic_ble_proxy.Proxy.Sample.{
  starting, node_frame, closing, closing-IsEnd, one_node-IsValid, waits, waits-IsOnce, parked_phone,
  parked_slot, encodes_six, attr_read,
}
use meshtastic_ble_proxy.Firmware.{
  Firmware, Answers, firmware_at_boot, main, receives, init_gatt, enable_bluetooth, advertise,
  init_uart, start_upstream,
}
use meshtastic_ble_proxy.Firmware.Boot.{codes, first_error, main-code, main-starts}
use meshtastic_ble_proxy.Firmware.Early.{advertised, early_write-sent}
use meshtastic_ble_proxy.Ble.Connections.{on_connected, ble_gatt_start_advertising}
use meshtastic_ble_proxy.Ble.Start.{ble_gatt_init}
use meshtastic_ble_proxy.Firmware.Interleaving.{
  Phase, next_call, sends, quietly, power, call, meanwhile,
}
use meshtastic_ble_proxy.Firmware.Interleaving.Safety.{boots-IsSound}
use meshtastic_ble_proxy.Proxy.Soundness.Steps
use meshtastic_ble_proxy.Firmware.Soundness.{IsSound, boots, moves, receive, reachable-IsSound}
use meshtastic_ble_proxy.Firmware.Serial.{serial_events, wire-serves}
use meshtastic_ble_proxy.Uart.Driver.Line.{stopped_dma}

-- All is well.
abbrev fine : Answers
fine = record {
  gatt = record {
    led_fromradio_ready = true;
    led_toradio_ready = true;
    led_fromradio_configure = ok;
    led_toradio_configure = ok;
  };
  bt_enable = ok;
  bt_le_adv_start = err ealready;
  uart = record {
    led_rx_ready = true;
    led_tx_ready = false;
    led_rx_configure = ok;
    led_tx_configure = ok;
    device_is_ready = true;
    uart_callback_set = ok;
    uart_rx_enable = ok;
  };
  rand = 1;
}

-- The serial port's device is missing.
abbrev no_port : Answers
no_port = record fine { uart = record (fine.uart) { device_is_ready = false } }

main-code_example : (main sample_nanopb no_port firmware_at_boot).0 ≡ first_error (codes no_port)
main-code_example = main-code sample_nanopb no_port firmware_at_boot

main-starts_example :
    let (rc, f') = main sample_nanopb fine firmware_at_boot in
    (rc ≡ ok)
    × (f'.proxy.tx.msgq ≡ (3 ∷ 2 ∷ []) ∷ [])
    × (f'.proxy.tx.submitted ≡ true)
    × (f'.proxy.upstream.state ≡ fetching)
    × (f'.proxy.upstream.nonce ≡ plain_nonce 1)
    × (f'.proxy.upstream.pending ≡ [])
    × (f'.proxy.ble.conns ≡ firmware_at_boot.proxy.ble.conns)
    × (f'.proxy.upstream.serve_cb ≡ true)
    × (f'.proxy.upstream.keepalive_scheduled ≡ true)
    × (f'.proxy.cache ≡ cache_begin firmware_at_boot.proxy.cache)
    × (f'.proxy.ble.toradio_handler ≡ true)
    × (f'.port.uart_dev ≡ true)
    × (f'.port.fromradio_cb ≡ true)
    × (f'.dma.filling ≡ some 0)
    × (f'.port.active_buf ≡ 0)
unfolding firmware_at_boot proxy_at_boot tx_at_boot
main-starts_example =
    main-starts sample_nanopb fine firmware_at_boot (3 ∷ 2 ∷ []) refl refl (omega arith) refl

-- Bytes that are no message.
early_write-sent_example :
    let f = (advertise fine (init_gatt fine firmware_at_boot).1).1 in
    let p = record (f.proxy) { ble = on_connected f.proxy.ble 7 false ok } in
    let p' = (toradio_write sample_nanopb p 7 (9 ∷ 9 ∷ []) 0).1 in
    (pc : ProxyConn) × (slot_of p.ble.conns 7 ≡ some pc)
    × IsFresh pc
    × (f.port.uart_dev ≡ false)
    × ((tx_work_handler p'.tx true).0 ≡ sent (frame_of (9 ∷ 9 ∷ [])))
unfolding proto_decode_toradio advertised enable_bluetooth advertise init_gatt ble_gatt_init
    ble_gatt_start_advertising
early_write-sent_example =
    early_write-sent sample_nanopb fine (advertise fine (init_gatt fine firmware_at_boot).1).1 7 ok
      (9 ∷ 9 ∷ []) refl refl (omega arith)

-- `main`, and a run of the receive work item.
reachable-IsSound_example :
    IsSound sample_nanopb attr_read what_fits
      (receives sample_nanopb (main sample_nanopb fine firmware_at_boot).1)
reachable-IsSound_example =
    reachable-IsSound sample_nanopb attr_read what_fits what_fits-IsRingBufPut
      (receives sample_nanopb (main sample_nanopb fine firmware_at_boot).1)
      (moves (main sample_nanopb fine firmware_at_boot).1
        (receives sample_nanopb (main sample_nanopb fine firmware_at_boot).1) (boots fine)
        (receive (main sample_nanopb fine firmware_at_boot).1))

-- A phone connects between the start of advertising and that of the serial port.
abbrev seen : Firmware
seen = (advertise fine (init_gatt fine firmware_at_boot).1).1

abbrev joined : Firmware
joined = record seen {
  proxy = record (seen.proxy) { ble = on_connected seen.proxy.ble 7 false ok };
}

boots-IsSound_example :
    IsSound sample_nanopb attr_read what_fits
      (start_upstream sample_nanopb fine (init_uart fine joined).1).1
unfolding next_call sends init_gatt enable_bluetooth advertise init_uart start_upstream find_slot
    firmware_at_boot proxy_at_boot ble_gatt_init ble_gatt_start_advertising uart_meshtastic_init
boots-IsSound_example =
    boots-IsSound sample_nanopb attr_read what_fits what_fits-IsRingBufPut fine Phase.looping
      (start_upstream sample_nanopb fine (init_uart fine joined).1).1
      (call Phase.listening (init_uart fine joined).1 (
        call Phase.advertised joined (
          meanwhile Phase.advertised seen joined
            (call Phase.bluetooth_on (init_gatt fine firmware_at_boot).1 (
              call Phase.gatt_set (init_gatt fine firmware_at_boot).1
                (call Phase.powered firmware_at_boot power)))
            (quietly seen joined.proxy (Steps.connect seen.proxy 7 false ok refl) refl))))

-- The proxy fetches with a phone parked, and its port listens.
abbrev awaiting : Firmware
awaiting = record { proxy = starting; port = open_port; dma = stopped_dma }

-- A node_info and the closing frame, with noise before the second.
abbrev chunks : List Chunk
chunks =
    record { noise = []; payload = 4 ∷ 2 ∷ [] }
    ∷ record { noise = 0 ∷ 13 ∷ []; payload = 7 ∷ 5 ∷ [] }
    ∷ []

abbrev arrivals : List RxEvent
arrivals =
    event (rx_rdy (0x94 ∷ 0xC3 ∷ 0 ∷ 2 ∷ 4 ∷ []))
    ∷ run
    ∷ event rx_buf_request
    ∷ event (rx_rdy (2 ∷ 0 ∷ 13 ∷ 0x94 ∷ 0xC3 ∷ []))
    ∷ event (rx_rdy (0 ∷ 2 ∷ 7 ∷ 5 ∷ []))
    ∷ run
    ∷ []

wire-serves_example :
    let p' = (serial_events sample_nanopb what_fits awaiting arrivals).proxy in
    let held = cached sample_tags (frames starting.cache) (node_frame ∷ []) in
    let seg = segment sample_tags 6 held in
    (pc' : ProxyConn) × (p'.upstream.state ≡ live)
    × (p'.upstream.pending ≡ [])
    × (p'.cache.ready ≡ true)
    × (frames p'.cache ≡ held)
    × (slot_of p'.ble.conns 7 ≡ some pc')
    × ((fresh_reads sample_tags p'.cache (length seg + 2) pc').0
        ≡ map (λ f. f.bytes) seg ++ (7 ∷ 6 ∷ []) ∷ [] ∷ [])
unfolding uart_cb rx_events rx_work port_at_boot frame_of proto_decode_fromradio
wire-serves_example =
    wire-serves sample_nanopb what_fits what_fits-IsRingBufPut awaiting arrivals chunks
      (node_frame ∷ []) closing 7 parked_phone (7 ∷ 6 ∷ [])
      (record { set = refl; worked_off = refl; idle = rx_at_boot-IsIdle })
      (record { state = refl; serve_cb = refl; valid = one_node-IsValid; once = waits-IsOnce })
      (ground arith) (omega arith) (omega arith) refl refl refl
      (((refl, ground arith, inl (ground arith)), tt)) (refl, closing-IsEnd)
      sample_tags-HasDistinctTags waits parked_slot refl encodes_six (omega arith)
