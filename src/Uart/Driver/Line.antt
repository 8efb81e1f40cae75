-- ===== src/Uart/Driver/Line.antt =====
-- Every order of what can happen on the serial line: the events that Zephyr's driver raises, with
-- the two DMA buffers of src/uart_meshtastic.c that it holds, and the runs of the work items.
pub mod Start
pub mod Safety
pub mod Recovery
use meshtastic_ble_proxy.Base.{
  List, All, if◌then◌else◌, ℕ, ◌+◌, ◌-◌, ◌≤◌, ◌≡◌, ◌≢◌, refl, sym, subst, Bool, true, false, Option,
  none, some, [], arith, length, take, Bytes, Rc, ok, err, length-append, length-take, ◌⊎◌, inl,
  inr,
}
use meshtastic_ble_proxy.Uart.{
  rx_work_handler, rx_at_boot, Tx, tx_at_boot, tx_work_handler, uart_meshtastic_tx,
}
use meshtastic_ble_proxy.Uart.Receive
use meshtastic_ble_proxy.Uart.Receive.{IsFrame, work_handler-IsSafe}
use meshtastic_ble_proxy.Uart.Transmit
use meshtastic_ble_proxy.Uart.Transmit.{at_boot-IsSafe, tx-IsSafe, handle-IsSafe, done-IsSafe}
use meshtastic_ble_proxy.Uart.Driver.{
  Port, port_at_boot, UartEvent, rx_rdy, rx_buf_request, rx_buf_released, rx_stopped, rx_disabled,
  transmit_done, transmit_aborted, DriverCall, nothing, uart_rx_buf_rsp, uart_rx_enable, RingBufPut,
  IsRingBufPut, uart_cb, rx_work, led_blink_work, InitAnswers, uart_meshtastic_init, ring_buf_size,
  uart_dma_buf_size,
}

-- The buffers that the driver holds, by their numbers: the one that it fills and the next, and
-- whether it has asked for the next since it began to fill.
pub record Dma : Type 0 where
  pub filling : Option ℕ
  pub spare : Option ℕ
  pub asked : Bool

abbrev pub stopped_dma : Dma
stopped_dma = record { filling = none; spare = none; asked = false }

-- The driver takes what it is handed, where it accepts it.
abbrev pub takes : Dma → Bool → DriverCall → Dma
takes d false call = d
takes d true nothing = d
takes d true (uart_rx_buf_rsp n) = record d { spare = some n }
takes d true (uart_rx_enable n) = record { filling = some n; spare = none; asked = false }

abbrev pub accepts : Rc → Bool
accepts ok = true
accepts (err e) = false

pub record Line : Type 0 where
  pub port : Port
  pub tx : Tx
  pub dma : Dma

-- The line behind a successful `uart_meshtastic_init`.
pub started : InitAnswers → Line
started a =
    let (rc, call, port, tx) = uart_meshtastic_init a port_at_boot tx_at_boot in
    record { port = port; tx = tx; dma = takes stopped_dma (accepts rc) call }

module _ (ring_buf_put : RingBufPut) where
  -- The driver, in a state of its own, raises an event, and takes what it is handed.
  pub raise : Line → Dma → Bool → UartEvent → Line
  raise l d accepted e =
      let (call, port, tx) = uart_cb ring_buf_put l.port l.tx e in
      record { port = port; tx = tx; dma = takes d accepted call }

  -- As Zephyr documents it, the driver asks once for the buffer after the one that it fills, goes on
  -- to that buffer when the first is full, and holds none once it is disabled.
  pub data DriverStep : Line → Line → Type 0 where
    ready :
        (l : Line) (b : ℕ) (more : Bytes)
        → l.dma.filling ≡ some b
        → length more ≤ uart_dma_buf_size
        → DriverStep l (raise l l.dma true (rx_rdy more))
    request :
        (l : Line) (b : ℕ) (accepted : Bool)
        → l.dma.filling ≡ some b
        → l.dma.asked ≡ false
        → DriverStep l (raise l (record (l.dma) { asked = true }) accepted rx_buf_request)
    go_on :
        (l : Line) (b s : ℕ)
        → l.dma.filling ≡ some b
        → l.dma.spare ≡ some s
        → DriverStep l (
            raise l (record { filling = some s; spare = none; asked = false }) true rx_buf_released)
    halt :
        (l : Line) (b reason : ℕ)
        → l.dma.filling ≡ some b
        → DriverStep l (raise l l.dma true (rx_stopped reason))
    disable :
        (l : Line) (b : ℕ) (answer : Rc)
        → l.dma.filling ≡ some b
        → DriverStep l (raise l stopped_dma (accepts answer) (rx_disabled answer))
    end_tx : (l : Line) → DriverStep l (raise l l.dma true transmit_done)
    abort_tx : (l : Line) → DriverStep l (raise l l.dma true transmit_aborted)

  pub data Step : Line → Line → Type 0 where
    driver : (l l' : Line) → DriverStep l l' → Step l l'
    work : (l : Line) → Step l (record l { port = (rx_work l.port).0 })
    blink : (l : Line) → Step l (record l { port = led_blink_work l.port })
    transmit :
        (l : Line) (accepted : Bool) → Step l (record l { tx = (tx_work_handler l.tx accepted).1 })
    queue :
        (l : Line) (payload : Bytes)
        → Step l (record l { tx = (uart_meshtastic_tx l.tx payload).1 })

  pub data IsReachable : Line → Type 0 where
    starts : (a : InitAnswers) → IsReachable (started a)
    moves : (l l' : Line) → IsReachable l → Step l l' → IsReachable l'

-- The numbers of the buffers that the driver holds, and `active_buf`. Two held buffers are 0 and 1.
abbrev pub Apart : Option ℕ → Option ℕ → Bool → ℕ → Type 0
Apart none spare asked active = spare ≡ none
Apart (some b) none false active = b ≡ active
Apart (some b) none true active = b ≤ 1
Apart (some b) (some s) asked active = (asked ≡ true) × (s ≡ active) × (b + s ≡ 1)

pub record IsSoundPort (port : Port) : Type 0 where
  pub sm : Receive.IsSafe port.sm
  pub ring : length port.ring ≤ ring_buf_size
  -- Bytes in the ring have a run of the work item to come.
  pub driven : (port.ring ≡ []) ⊎ (port.submitted ≡ true)
  pub active : port.active_buf ≤ 1

pub record IsSoundLine (l : Line) : Type 0 where
  pub port : IsSoundPort l.port
  pub tx : Transmit.IsSafe l.tx
  pub apart : Apart l.dma.filling l.dma.spare l.dma.asked l.port.active_buf
