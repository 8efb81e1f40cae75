-- ===== src/Uart/Driver/Delivery.antt =====
-- What the receive path of src/uart_meshtastic.c hands on, however the driver cuts the bytes of the
-- line into UART_RX_RDY events and however late the work item runs.
use meshtastic_ble_proxy.Base.{
  ◌+◌, ◌≤◌, ◌≡◌, refl, sym, ap, ap₂, subst, ◌∙◌, true, List, [], ◌∷◌, ◌++◌, arith, length, take,
  take-all, map, Bytes, append_assoc, append-nil, All,
}
use meshtastic_ble_proxy.Uart.{RxSm, Tx, rx_work_handler}
use meshtastic_ble_proxy.Uart.Receive.{
  work_handler-append, IsIdle, Chunk, wire, IsChunk, receive-wire,
}
use meshtastic_ble_proxy.Uart.Driver.{
  Port, UartEvent, rx_rdy, transmit_done, transmit_aborted, RingBufPut, IsRingBufPut, uart_cb,
  rx_work, ring_buf_size,
}

-- The events of the driver and the runs of `rx_work`, in their order.
pub data RxEvent : Type 0 where
  event : UartEvent → RxEvent
  run : RxEvent

-- The events of the receive side.
abbrev pub IsRx : UartEvent → Type 0
IsRx transmit_done = ⊥
IsRx transmit_aborted = ⊥
IsRx _ = Unit

abbrev pub AllRx : List RxEvent → Type 0
AllRx [] = Unit
AllRx (run ∷ es) = AllRx es
AllRx (event e ∷ es) = IsRx e × AllRx es

-- The bytes that an event brings.
abbrev pub bytes_of : UartEvent → Bytes
bytes_of (rx_rdy more) = more
bytes_of _ = []

-- The bytes of an event that the ring buffer took.
abbrev pub kept : RingBufPut → Port → UartEvent → Bytes
kept ring_buf_put port (rx_rdy more) = take (ring_buf_put port.ring more) more
kept ring_buf_put port _ = []

-- What came of the events: the frames handed on, the bytes that the ring buffer took, and all that
-- the driver brought.
pub record RxLog : Type 0 where
  pub frames : List Bytes
  pub stored : Bytes
  pub arrived : Bytes

module _ (ring_buf_put : RingBufPut) where
  unfoldable pub rx_events : Port → Tx → List RxEvent → Port × Tx × RxLog
  rx_events port tx [] = (port, tx, record { frames = []; stored = []; arrived = [] })
  rx_events port tx (run ∷ es) =
      let (port', frames) = rx_work port in
      let (end, tx', log) = rx_events port' tx es in
      (end, tx', record log { frames = frames ++ log.frames })
  rx_events port tx (event e ∷ es) =
      let (call, port', tx') = uart_cb ring_buf_put port tx e in
      let (end, tx'', log) = rx_events port' tx' es in
      (
        end,
        tx'',
        record log {
          stored = kept ring_buf_put port e ++ log.stored;
          arrived = bytes_of e ++ log.arrived;
        },
      )

  -- The receive side does not look at the transmit side, and leaves it alone.
  pub uart_cb-any_tx :
      (port : Port) (tx tx' : Tx) (e : UartEvent)
      → (uart_cb ring_buf_put port tx e).1 ≡ (uart_cb ring_buf_put port tx' e).1
  unfolding uart_cb
  uart_cb-any_tx port tx tx' (rx_rdy more) = refl
  uart_cb-any_tx port tx tx' _ = refl

  pub uart_cb-rx :
      (port : Port) (tx : Tx) (e : UartEvent) → IsRx e → (uart_cb ring_buf_put port tx e).2 ≡ tx
  unfolding uart_cb
  uart_cb-rx port tx transmit_done h = absurd h
  uart_cb-rx port tx transmit_aborted h = absurd h
  uart_cb-rx port tx (rx_rdy more) h = refl
  uart_cb-rx port tx _ h = refl

  pub rx_events-any_tx :
      (port : Port) (tx tx' : Tx) (es : List RxEvent)
      → ((rx_events port tx es).0 ≡ (rx_events port tx' es).0)
        × ((rx_events port tx es).2 ≡ (rx_events port tx' es).2)
  unfolding rx_events
  rx_events-any_tx port tx tx' [] = (refl, refl)
  rx_events-any_tx port tx tx' (run ∷ es) =
      let (port', frames) = rx_work port in
      let (end, log) = rx_events-any_tx port' tx tx' es in
      (end, ap {A = RxLog} (λ l. record l { frames = frames ++ l.frames }) log)
  rx_events-any_tx port tx tx' (event e ∷ es) =
      let (call, p, t) = uart_cb ring_buf_put port tx e in
      let (call', p', t') = uart_cb ring_buf_put port tx' e in
      let same = uart_cb-any_tx port tx tx' e in
      let (end, log) = rx_events-any_tx p t t' es in
      (
        end ∙ ap (λ q. (rx_events q t' es).0) same,
        ap {A = RxLog}
            (λ l. record l {
              stored = kept ring_buf_put port e ++ l.stored;
              arrived = bytes_of e ++ l.arrived;
            })
            (log ∙ ap (λ q. (rx_events q t' es).2) same),
      )

  -- Every event's bytes fit in the ring buffer as it stands then.
  abbrev pub Fits : Port → Tx → List RxEvent → Type 0
  Fits port tx [] = Unit
  Fits port tx (run ∷ es) = Fits (rx_work port).0 tx es
  Fits port tx (event e ∷ es) =
      let (call, port', tx') = uart_cb ring_buf_put port tx e in
      (length port.ring + length (bytes_of e) ≤ ring_buf_size) × Fits port' tx' es

  -- A run of the work item hands on what the receiver makes of the ring buffer's bytes.
  rx_work-handler :
      (port : Port) (later : Bytes)
      → port.fromradio_cb ≡ true
      → let (port', fs) = rx_work port in
        let (sm, gs) = rx_work_handler port'.sm later in
        rx_work_handler port.sm (port.ring ++ later) ≡ (sm, fs ++ gs)
  unfolding rx_work
  rx_work-handler port later set = rw set (work_handler-append port.sm port.ring later)

  uart_cb-keeps :
      (port : Port) (tx : Tx) (e : UartEvent)
      → let port' = (uart_cb ring_buf_put port tx e).1 in
        (port'.sm ≡ port.sm)
        × (port'.ring ≡ port.ring ++ kept ring_buf_put port e)
        × (port'.fromradio_cb ≡ port.fromradio_cb)
  unfolding uart_cb
  uart_cb-keeps port tx (rx_rdy more) = (refl, refl, refl)
  uart_cb-keeps port tx _ = (refl, sym (append-nil port.ring), refl)

  -- Whatever the ring buffer had to drop, the frames handed on, and those still to come of the
  -- bytes in it, are those that the receiver makes of the bytes that it took, in their order.
  pub stored-handed_on :
      (port : Port) (tx : Tx) (es : List RxEvent)
      → port.fromradio_cb ≡ true
      → let (end, tx', log) = rx_events port tx es in
        let (sm, rest) = rx_work_handler end.sm end.ring in
        rx_work_handler port.sm (port.ring ++ log.stored) ≡ (sm, log.frames ++ rest)
  unfolding rx_events rx_work
  stored-handed_on port tx [] set = rw append-nil
  stored-handed_on port tx (run ∷ es) set =
      let (port', fs) = rx_work port in
      let (end, tx', log) = rx_events port' tx es in
      let (sm, rest) = rx_work_handler end.sm end.ring in
      rx_work-handler port log.stored set
      ∙ ap {B = RxSm × List Bytes} (λ r. (r.0, fs ++ r.1)) (stored-handed_on port' tx es set)
      ∙ ap {B = RxSm × List Bytes} (λ gs. (sm, gs)) (sym (append_assoc fs log.frames rest))
  stored-handed_on port tx (event e ∷ es) set =
      let (call, port', tx') = uart_cb ring_buf_put port tx e in
      let (end, tx'', log) = rx_events port' tx' es in
      let (sm, ring, cb) = uart_cb-keeps port tx e in
      ap₂ rx_work_handler (sym sm) (
        sym (append_assoc port.ring (kept ring_buf_put port e) log.stored)
        ∙ ap (λ bytes. bytes ++ log.stored) (sym ring))
      ∙ stored-handed_on port' tx' es (cb ∙ set)

  -- Where all fits, all is kept.
  stored-arrived :
      IsRingBufPut ring_buf_put
      → (port : Port) (tx : Tx) (es : List RxEvent) → Fits port tx es
      → let (end, tx', log) = rx_events port tx es in log.stored ≡ log.arrived
  unfolding rx_events
  stored-arrived law port tx [] h = refl
  stored-arrived law port tx (run ∷ es) h = stored-arrived law (rx_work port).0 tx es h
  stored-arrived law port tx (event e ∷ es) h =
      let (call, port', tx') = uart_cb ring_buf_put port tx e in
      ap₂ (λ xs ys. xs ++ ys) (kept-all e (h.0)) (stored-arrived law port' tx' es (h.1))
    where
      kept-all :
          (e : UartEvent)
          → length port.ring + length (bytes_of e) ≤ ring_buf_size
          → kept ring_buf_put port e ≡ bytes_of e
      kept-all (rx_rdy more) room = take-all _ more (omega (arith, law.all port.ring more room))
      kept-all _ room = refl

  -- What is known of a run at whose end the ring buffer is empty.
  worked_off-handed_on :
      (port end : Port) (bytes stored : Bytes) (frames fs : List Bytes) (sm : RxSm)
      → port.ring ≡ []
      → end.ring ≡ []
      → stored ≡ bytes
      → rx_work_handler port.sm (port.ring ++ stored)
        ≡ (let (sm', rest) = rx_work_handler end.sm end.ring in (sm', frames ++ rest))
      → rx_work_handler port.sm bytes ≡ (sm, fs)
      → (frames ≡ fs) × (end.sm ≡ sm)
  unfolding rx_work_handler
  worked_off-handed_on port end bytes stored frames fs sm empty off same e e' =
      let all : rx_work_handler port.sm bytes ≡ (end.sm, frames) =
        ap (rx_work_handler port.sm) (sym same)
        ∙ ap (λ ring. rx_work_handler port.sm (ring ++ stored)) (sym empty)
        ∙ e
        ∙ ap (λ ring. let (sm', rest) = rx_work_handler end.sm ring in (sm', frames ++ rest)) off
        ∙ ap {B = RxSm × List Bytes} (λ gs. (end.sm, gs)) (append-nil frames) in
      (ap (λ r. r.1) (sym all ∙ e'), ap (λ r. r.0) (sym all ∙ e'))

  -- Frames of 1 to 512 bytes, with noise free of the first magic byte between them, are handed on
  -- exactly and in order, however the driver cuts the line's bytes into events, whatever other
  -- events come between, and whenever the work item runs, if each event's bytes fit in the ring
  -- buffer as it stands then and the last bytes have been worked off.
  pub line-delivers :
      IsRingBufPut ring_buf_put
      → (port : Port) (tx : Tx) (es : List RxEvent) (cs : List Chunk) → port.fromradio_cb ≡ true
      → port.ring ≡ []
      → IsIdle port.sm
      → All IsChunk cs
      → Fits port tx es
      → (rx_events port tx es).2.arrived ≡ wire cs
      → (rx_events port tx es).0.ring ≡ []
      → let (end, tx', log) = rx_events port tx es in
        (log.frames ≡ map (λ c. c.payload) cs) × IsIdle end.sm
  line-delivers law port tx es cs set empty idle sound fits all_came worked_off =
      let (end, tx', log) = rx_events port tx es in
      let (sm, ready, e) = receive-wire port.sm cs idle sound in
      let (same, last) =
        worked_off-handed_on port end (wire cs) log.stored log.frames _ sm empty worked_off
          (stored-arrived law port tx es fits ∙ all_came) (stored-handed_on port tx es set) e in
      (same, subst IsIdle (sym last) ready)
