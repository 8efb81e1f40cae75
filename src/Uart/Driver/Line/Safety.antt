-- ===== src/Uart/Driver/Line/Safety.antt =====
-- The invariant of the serial line of src/uart_meshtastic.c, over every order of what can happen on
-- it.
use meshtastic_ble_proxy.Base.{
  List, All, if◌then◌else◌, ℕ, ◌-◌, ◌≤◌, ◌≡◌, refl, Bool, true, false, Option, none, some, [],
  arith, take, Bytes, Rc, ok, err, length-append, length-take, inl, inr,
}
use meshtastic_ble_proxy.Uart.{rx_work_handler}
use meshtastic_ble_proxy.Uart.Receive.{IsFrame, work_handler-IsSafe}
use meshtastic_ble_proxy.Uart.Transmit.{tx-IsSafe, handle-IsSafe, done-IsSafe}
use meshtastic_ble_proxy.Uart.Driver.{
  rx_rdy, uart_rx_buf_rsp, uart_rx_enable, RingBufPut, IsRingBufPut, uart_cb, rx_work,
  led_blink_work,
}
use meshtastic_ble_proxy.Uart.Driver.Line.{
  stopped_dma, takes, accepts, Line, raise, DriverStep, Step, IsReachable, Apart, IsSoundLine,
  ready, request, go_on, halt, disable, end_tx, abort_tx, driver, work, blink, transmit, queue,
  starts, moves,
}
use meshtastic_ble_proxy.Uart.Driver.Line.Start.{started-IsSound}

-- A run of `rx_work`: every frame handed on has 1 to 512 bytes.
pub work-IsSoundLine :
    (l : Line)
    → IsSoundLine l
    → IsSoundLine (record l { port = (rx_work l.port).0 }) × All IsFrame (rx_work l.port).1
unfolding rx_work
work-IsSoundLine l w =
    let (safe, sizes) = work_handler-IsSafe l.port.sm l.port.ring w.port.sm in
    (
      record {
        port = record { sm = safe; ring = omega arith; driven = inl refl; active = w.port.active };
        tx = w.tx;
        apart = w.apart;
      },
      handed l.port.fromradio_cb (rx_work_handler l.port.sm l.port.ring).1 sizes,
    )
  where
    handed :
        (set : Bool) (frames : List Bytes)
        → All IsFrame frames
        → All IsFrame (if set then frames else [])
    handed true frames h = h
    handed false frames h = tt

pub blink-IsSoundLine :
    (l : Line) → IsSoundLine l → IsSoundLine (record l { port = led_blink_work l.port })
unfolding led_blink_work
blink-IsSoundLine l w = record {
  port = record {
    sm = w.port.sm;
    ring = w.port.ring;
    driven = w.port.driven;
    active = w.port.active;
  };
  tx = w.tx;
  apart = w.apart;
}

module _ (ring_buf_put : RingBufPut) (law : IsRingBufPut ring_buf_put) where
  rdy-IsSound :
      (l : Line) (more : Bytes)
      → IsSoundLine l
      → IsSoundLine (raise ring_buf_put l l.dma true (rx_rdy more))
  unfolding raise uart_cb
  rdy-IsSound l more w = record {
    port = record {
      sm = w.port.sm;
      ring = omega (
        arith,
        length-append l.port.ring (take (ring_buf_put l.port.ring more) more),
        length-take (ring_buf_put l.port.ring more) more,
        law.fits l.port.ring more w.port.ring,
        law.given l.port.ring more,
      );
      driven = inr refl;
      active = w.port.active;
    };
    tx = w.tx;
    apart = w.apart;
  }

  request-Apart :
      (filling spare : Option ℕ) (asked : Bool) (active b : ℕ) (accepted : Bool)
      → active ≤ 1
      → filling ≡ some b
      → asked ≡ false
      → Apart filling spare asked active
      → let d =
          takes
            (record { filling = filling; spare = spare; asked = true })
            accepted
            (uart_rx_buf_rsp (1 - active)) in
        Apart d.filling d.spare d.asked (1 - active)
  request-Apart none spare asked active b accepted h e f v = cc
  request-Apart (some c) (some s) asked active b accepted h e f v = cc (v.0)
  request-Apart (some c) none true active b accepted h e f v = cc
  request-Apart (some c) none false active b false h e f v = omega (arith, v)
  request-Apart (some c) none false active b true h e f v = (refl, refl, omega arith)

  go_on-Apart :
      (filling spare : Option ℕ) (asked : Bool) (active b s : ℕ)
      → filling ≡ some b
      → spare ≡ some s
      → Apart filling spare asked active
      → s ≡ active
  go_on-Apart none spare asked active b s e f v = cc
  go_on-Apart (some c) none asked active b s e f v = cc
  go_on-Apart (some c) (some t) asked active b s e f v = cc (v.1)

  reset-Apart :
      (answer : Rc)
      → let d = takes stopped_dma (accepts answer) (uart_rx_enable 0) in
        Apart d.filling d.spare d.asked 0
  reset-Apart ok = refl
  reset-Apart (err e) = refl

  pub driver-IsSoundLine :
      (l l' : Line) → DriverStep ring_buf_put l l' → IsSoundLine l → IsSoundLine l'
  unfolding raise uart_cb
  driver-IsSoundLine _ _ (ready l b more e small) w = rdy-IsSound l more w
  driver-IsSoundLine _ _ (request l b accepted e f) w = record {
    port = record {
      sm = w.port.sm;
      ring = w.port.ring;
      driven = w.port.driven;
      active = omega arith;
    };
    tx = w.tx;
    apart =
        request-Apart l.dma.filling l.dma.spare l.dma.asked l.port.active_buf b accepted
          w.port.active e f w.apart;
  }
  driver-IsSoundLine _ _ (go_on l b s e f) w = record {
    port = w.port;
    tx = w.tx;
    apart = go_on-Apart l.dma.filling l.dma.spare l.dma.asked l.port.active_buf b s e f w.apart;
  }
  driver-IsSoundLine _ _ (halt l b reason e) w = w
  driver-IsSoundLine _ _ (disable l b answer e) w = record {
    port = record {
      sm = w.port.sm;
      ring = w.port.ring;
      driven = w.port.driven;
      active = omega arith;
    };
    tx = w.tx;
    apart = reset-Apart answer;
  }
  driver-IsSoundLine _ _ (end_tx l) w = record {
    port = record {
      sm = w.port.sm;
      ring = w.port.ring;
      driven = w.port.driven;
      active = w.port.active;
    };
    tx = done-IsSafe l.tx w.tx;
    apart = w.apart;
  }
  driver-IsSoundLine _ _ (abort_tx l) w = record {
    port = w.port;
    tx = done-IsSafe l.tx w.tx;
    apart = w.apart;
  }

  step-IsSoundLine : (l l' : Line) → Step ring_buf_put l l' → IsSoundLine l → IsSoundLine l'
  step-IsSoundLine _ _ (driver l l' step) w = driver-IsSoundLine l l' step w
  step-IsSoundLine _ _ (work l) w = (work-IsSoundLine l w).0
  step-IsSoundLine _ _ (blink l) w = blink-IsSoundLine l w
  step-IsSoundLine _ _ (transmit l accepted) w = record {
    port = w.port;
    tx = handle-IsSafe l.tx.msgq l.tx accepted refl w.tx;
    apart = w.apart;
  }
  step-IsSoundLine _ _ (queue l payload) w = record {
    port = w.port;
    tx = tx-IsSafe l.tx payload w.tx;
    apart = w.apart;
  }

  -- In whatever order the driver raises its events and the work items run, from the start on: the
  -- receiver writes inside its buffer, the ring buffer holds at most 1024 bytes, bytes in it have a
  -- run of `rx_work` to come, the transmit queue is safe, `active_buf` is 0 or 1, and the two DMA
  -- buffers that the driver holds are never the same one.
  pub reachable-IsSoundLine : (l : Line) → IsReachable ring_buf_put l → IsSoundLine l
  reachable-IsSoundLine _ (starts a) = started-IsSound a
  reachable-IsSoundLine _ (moves l l' before step) =
      step-IsSoundLine l l' step (reachable-IsSoundLine l before)
