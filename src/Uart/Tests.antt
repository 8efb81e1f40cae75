-- ===== src/Uart/Tests.antt =====
-- src/uart_meshtastic.c on concrete bytes and events.
use meshtastic_ble_proxy.Base.{
  ◌==◌, length-replicate, ℕ, ◌+◌, ◌<◌, take, ◌⊎◌, ◌≢◌, ◌≤◌, ok, err, enodev, none, length, inr,
  false, some, replicate, ◌≡◌, refl, List, [], ◌∷◌, ◌++◌, map, arith, Bytes, true,
}
use meshtastic_ble_proxy.Uart.{
  RxSm, rx_at_boot, rx_work_handler, Tx, tx_at_boot, frame_of, meshtastic_max_payload,
}
use meshtastic_ble_proxy.Uart.Receive.{IsSafe, IsIdle, Chunk, wire, receive-wire}
use meshtastic_ble_proxy.Uart.Driver
use meshtastic_ble_proxy.Uart.Driver.{
  Port, port_at_boot, RingBufPut, IsRingBufPut, ring_buf_size, rx_rdy, rx_buf_request, uart_cb,
  rx_work,
}
use meshtastic_ble_proxy.Uart.Driver.Delivery.{
  RxEvent, event, rx_events, line-delivers, stored-handed_on,
}
use meshtastic_ble_proxy.Uart.Driver.Line.{Line, work}
use meshtastic_ble_proxy.Uart.Driver.Line.Recovery
use meshtastic_ble_proxy.Uart.Driver.Line.Recovery.{disabled, next, disabled-recovers_or_deaf}
use meshtastic_ble_proxy.Uart.Driver.Overflow.{rx_rdy-stores}
use meshtastic_ble_proxy.Uart.Sample.{
  rx_at_boot-IsIdle, what_fits, what_fits-IsRingBufPut, open_port,
}
use meshtastic_ble_proxy.Uart.Progress.{rounds, rounds-drain, work_queue, work_queue-ends}
use meshtastic_ble_proxy.Uart.Transmit.{
  TxEvent, put, run, done, tx_events, at_boot-IsSafe, events-fifo,
}

rx_at_boot-IsSafe : IsSafe rx_at_boot
unfolding rx_at_boot
rx_at_boot-IsSafe = record { buffer = refl; in_bounds = tt }

-- Noise, a frame of three bytes, and a frame of one right behind it.
abbrev line : List Chunk
line =
    record { noise = 1 ∷ 2 ∷ []; payload = 5 ∷ 6 ∷ 7 ∷ [] }
    ∷ record { noise = []; payload = 8 ∷ [] }
    ∷ []

receive-wire_example :
    (sm' : RxSm) × IsIdle sm'
    × (rx_work_handler rx_at_boot (wire line) ≡ (sm', map (λ c. c.payload) line))
receive-wire_example = receive-wire rx_at_boot line rx_at_boot-IsIdle (ground arith)

-- Two packets; the first transmission ends before the second starts.
abbrev events : List TxEvent
events = put (1 ∷ []) ∷ put (2 ∷ 3 ∷ []) ∷ run true ∷ run true ∷ done ∷ run true ∷ []

events-fifo_example :
    let (end, log) = tx_events tx_at_boot events in
    map frame_of (tx_at_boot.msgq ++ log.accepted) ≡ log.started ++ map frame_of end.msgq
events-fifo_example = events-fifo tx_at_boot events

-- The line's bytes in two events, with a run of the work item in the middle of a frame.
abbrev in_two : List RxEvent
in_two =
    event (rx_rdy (1 ∷ 2 ∷ 0x94 ∷ 0xC3 ∷ 0 ∷ []))
    ∷ Driver.Delivery.run
    ∷ event rx_buf_request
    ∷ event (rx_rdy (3 ∷ 5 ∷ 6 ∷ 7 ∷ 0x94 ∷ 0xC3 ∷ 0 ∷ 1 ∷ 8 ∷ []))
    ∷ Driver.Delivery.run
    ∷ []

line-delivers_example :
    let (end, tx', log) = rx_events what_fits open_port tx_at_boot in_two in
    (log.frames ≡ map (λ c. c.payload) line) × IsIdle end.sm
unfolding uart_cb rx_events rx_work port_at_boot frame_of
line-delivers_example =
    line-delivers what_fits what_fits-IsRingBufPut open_port tx_at_boot in_two line refl refl
      rx_at_boot-IsIdle (ground arith) (omega arith) refl refl

-- 1020 bytes wait, and five come.
abbrev nearly_full : Port
nearly_full = record open_port { ring = replicate 1020 0 }

rx_rdy-stores_example :
    let more : Bytes = 1 ∷ 2 ∷ 3 ∷ 4 ∷ 5 ∷ [] in
    let (call, port', tx') = uart_cb what_fits nearly_full tx_at_boot (rx_rdy more) in
    (n : ℕ) × (port' ≡ record nearly_full {
      ring = nearly_full.ring ++ take n more;
      rx_active = true;
      submitted = true;
    })
    × (tx' ≡ tx_at_boot)
    × (length port'.ring ≤ ring_buf_size)
    × (((length nearly_full.ring + length more ≤ ring_buf_size) × (take n more ≡ more))
        ⊎ ((ring_buf_size < length nearly_full.ring + length more) × (n < length more)))
rx_rdy-stores_example =
    rx_rdy-stores what_fits what_fits-IsRingBufPut nearly_full tx_at_boot (1 ∷ 2 ∷ 3 ∷ 4 ∷ 5 ∷ [])
      (omega (arith, length-replicate {A = ℕ} 1020 0))

-- The driver fills buffer 0, then is disabled and not enabled again; the work item runs behind.
abbrev broken : Line
broken = record {
  port = record open_port { ring = 148 ∷ []; submitted = true };
  tx = tx_at_boot;
  dma = record { filling = some 0; spare = none; asked = false };
}

abbrev broken_then : Line
broken_then =
    let l = disabled what_fits broken (err enodev) in record l { port = (Driver.rx_work l.port).0 }

disabled-recovers_or_deaf_example :
    ((err enodev ≡ ok)
      × ((disabled what_fits broken (err enodev)).dma.filling ≡ some 0)
      × ((disabled what_fits broken (err enodev)).port.active_buf ≡ 0))
    ⊎ ((err enodev ≢ ok)
        × (broken_then.dma.filling ≡ none)
        × (length broken_then.port.ring ≤ length broken.port.ring))
disabled-recovers_or_deaf_example =
    disabled-recovers_or_deaf what_fits broken broken_then (err enodev) (
      next (disabled what_fits broken (err enodev)) broken_then Recovery.done
        (work (disabled what_fits broken (err enodev))))

stored-handed_on_example :
    let (end, tx', log) = rx_events what_fits open_port tx_at_boot in_two in
    let (sm, rest) = rx_work_handler end.sm end.ring in
    rx_work_handler open_port.sm (open_port.ring ++ log.stored) ≡ (sm, log.frames ++ rest)
unfolding port_at_boot
stored-handed_on_example = stored-handed_on what_fits open_port tx_at_boot in_two refl

-- Three packets wait; the driver refuses the second.
abbrev waiting_tx : Tx
waiting_tx = record tx_at_boot { msgq = (1 ∷ []) ∷ (2 ∷ []) ∷ (3 ∷ []) ∷ []; submitted = true }

waiting_tx-IsSafe : meshtastic_ble_proxy.Uart.Transmit.IsSafe waiting_tx
waiting_tx-IsSafe = record { depth = omega arith; sizes = omega arith; driven = inr (inr refl) }

rounds-drain_example :
    let (end, frames) = rounds waiting_tx (true ∷ false ∷ true ∷ []) in
    (end.msgq ≡ []) × (frames ≡ map frame_of waiting_tx.msgq)
rounds-drain_example =
    rounds-drain waiting_tx (true ∷ false ∷ true ∷ []) waiting_tx-IsSafe (omega arith)

work_queue-ends_example :
    (end : Tx) × (work_queue 5 (λ n. n == 0) waiting_tx ≡ some end)
    × (end.submitted ≡ false)
    × ((end.msgq ≡ []) ⊎ (end.in_progress ≡ true))
work_queue-ends_example = work_queue-ends 5 (λ n. n == 0) waiting_tx waiting_tx-IsSafe (omega arith)

-- An overflow drops the bytes behind the room.
overflow :
    rx_events what_fits
      (record open_port { ring = replicate 1022 7 })
      tx_at_boot
      (event (rx_rdy (1 ∷ 2 ∷ 3 ∷ [])) ∷ [])
    ≡ (
      record open_port {
        ring = replicate 1022 7 ++ 1 ∷ 2 ∷ [];
        rx_active = true;
        submitted = true;
      },
      tx_at_boot,
      record { frames = []; stored = 1 ∷ 2 ∷ []; arrived = 1 ∷ 2 ∷ 3 ∷ [] },
    )
unfolding rx_events uart_cb
overflow = refl
