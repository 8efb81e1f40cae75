-- ===== src/Uart/Driver.antt =====
-- The driver's side of src/uart_meshtastic.c: `uart_cb` over the events of Zephyr's asynchronous
-- UART, the receive ring buffer, the work items, the activity LEDs and `uart_meshtastic_init`.
-- The ring buffer is Zephyr's: what `ring_buf_put` writes of the bytes it is given is a parameter,
-- with its documented bounds as a record of hypotheses.
pub mod Delivery
pub mod Overflow
pub mod Line
use meshtastic_ble_proxy.Base.{
  ℕ, ◌+◌, ◌≤◌, ◌-◌, ◌≡◌, Bool, true, false, not, ◌&&◌, Option, none, some, List, [], ◌∷◌, ◌++◌,
  if◌then◌else◌, length, take, Bytes, Rc, ok, err, Errno, enodev,
}
use meshtastic_ble_proxy.Leds.{led_blink_tick, configure}
use meshtastic_ble_proxy.Uart.{RxSm, wait_magic1, rx_at_boot, rx_work_handler, Tx, tx_done}

abbrev pub uart_dma_buf_size : ℕ
uart_dma_buf_size = 256

abbrev pub ring_buf_size : ℕ
ring_buf_size = 1024

-- The module's static variables but those of the transmit side: whether `uart_dev` is set, `rx_sm`, `rx_ring_buf` (the bytes
-- in it, oldest first), whether `rx_work` is submitted, `active_buf`, the two activity flags, the
-- level of the two LEDs, whether `led_blink_dwork` is scheduled, and whether `fromradio_cb` is set.
pub record Port : Type 0 where
  pub uart_dev : Bool
  pub sm : RxSm
  pub ring : Bytes
  pub submitted : Bool
  pub active_buf : ℕ
  pub rx_active : Bool
  pub tx_active : Bool
  pub rx_led : Bool
  pub tx_led : Bool
  pub blinking : Bool
  pub fromradio_cb : Bool

unfoldable pub port_at_boot : Port
unfolding rx_at_boot
port_at_boot = record {
  uart_dev = false;
  sm = rx_at_boot;
  ring = [];
  submitted = false;
  active_buf = 0;
  rx_active = false;
  tx_active = false;
  rx_led = false;
  tx_led = false;
  blinking = false;
  fromradio_cb = false;
}

-- `enum uart_event_type`, with the data that `uart_cb` reads. An UART_RX_DISABLED stands with the
-- answer that the re-enabling `uart_rx_enable` gives.
pub data UartEvent : Type 0 where
  rx_rdy : Bytes → UartEvent
  rx_buf_request rx_buf_released : UartEvent
  rx_stopped : (reason : ℕ) → UartEvent
  rx_disabled : Rc → UartEvent
  transmit_done transmit_aborted : UartEvent

-- What `uart_cb` asks of the driver: the number of the DMA buffer that it hands over.
pub data DriverCall : Type 0 where
  nothing : DriverCall
  uart_rx_buf_rsp : ℕ → DriverCall
  uart_rx_enable : ℕ → DriverCall

-- `active_buf ^= 1U`, of an index that is 0 or 1.
abbrev flip : ℕ → ℕ
flip n = 1 - n

-- How many of the bytes it is given `ring_buf_put` writes into a ring that holds some.
abbrev pub RingBufPut : Type 0
RingBufPut = Bytes → Bytes → ℕ

-- What Zephyr documents of `ring_buf_put`: it writes no more than it is given and than fits, and all
-- where all fits.
pub record IsRingBufPut (ring_buf_put : RingBufPut) : Type 0 where
  pub given : (ring more : Bytes) → ring_buf_put ring more ≤ length more
  pub fits :
      (ring more : Bytes)
      → length ring ≤ ring_buf_size
      → length ring + ring_buf_put ring more ≤ ring_buf_size
  pub all :
      (ring more : Bytes)
      → length ring + length more ≤ ring_buf_size
      → ring_buf_put ring more ≡ length more

module _ (ring_buf_put : RingBufPut) where
  -- The case UART_RX_RDY. The number of bytes written is not looked at.
  receive : Port → Bytes → Port
  receive port more = record port {
    ring = port.ring ++ take (ring_buf_put port.ring more) more;
    rx_active = true;
    submitted = true;
  }

  unfoldable pub uart_cb : Port → Tx → UartEvent → DriverCall × Port × Tx
  unfolding receive
  uart_cb port tx (rx_rdy more) = (nothing, receive port more, tx)
  uart_cb port tx rx_buf_request =
      let active = flip port.active_buf in
      (uart_rx_buf_rsp active, record port { active_buf = active }, tx)
  uart_cb port tx rx_buf_released = (nothing, port, tx)
  uart_cb port tx (rx_stopped reason) = (nothing, port, tx)
  uart_cb port tx (rx_disabled answer) = (uart_rx_enable 0, record port { active_buf = 0 }, tx)
  uart_cb port tx transmit_done = (nothing, record port { tx_active = true }, tx_done tx)
  uart_cb port tx transmit_aborted = (nothing, port, tx_done tx)

-- A run of `rx_work`: the ring buffer is emptied, and the frames go to `fromradio_cb` if it is set.
unfoldable pub rx_work : Port → Port × List Bytes
rx_work port =
    let (sm, frames) = rx_work_handler port.sm port.ring in
    (
      record port { sm = sm; ring = []; submitted = false },
      if port.fromradio_cb then frames else [],
    )

-- `led_blink_work` reschedules itself.
unfoldable pub led_blink_work : Port → Port
unfolding led_blink_tick
led_blink_work port =
    let (rx_led, rx_active) = led_blink_tick port.rx_led port.rx_active in
    let (tx_led, tx_active) = led_blink_tick port.tx_led port.tx_active in
    record port {
      rx_led = rx_led;
      rx_active = rx_active;
      tx_led = tx_led;
      tx_active = tx_active;
      blinking = true;
    }

-- What `uart_meshtastic_init` is answered.
pub record InitAnswers : Type 0 where
  pub led_rx_ready : Bool
  pub led_tx_ready : Bool
  pub led_rx_configure : Rc
  pub led_tx_configure : Rc
  pub device_is_ready : Bool
  pub uart_callback_set : Rc
  pub uart_rx_enable : Rc

start_leds : InitAnswers → Port → Port
start_leds a port =
    if a.led_rx_ready && a.led_tx_ready
    then record port {
      rx_led = configure a.led_rx_configure port.rx_led;
      tx_led = configure a.led_tx_configure port.tx_led;
      blinking = true;
    }
    else port

-- The call of `uart_rx_enable`, behind the tests of what comes before.
enable : InitAnswers → Port → Rc × DriverCall × Port
enable a port = elim a.uart_callback_set [
  | err e ↦ (err e, nothing, port)
  | ok ↦ (a.uart_rx_enable, uart_rx_enable 0, record port { active_buf = 0 })
]

unfoldable pub uart_meshtastic_init : InitAnswers → Port → Tx → Rc × DriverCall × Port × Tx
unfolding start_leds enable
uart_meshtastic_init a port tx =
    let set = record port { fromradio_cb = true; sm = record (port.sm) { state = wait_magic1 } } in
    let lit = record (start_leds a set) { uart_dev = true } in
    let tx' = record tx { in_progress = false } in
    if not a.device_is_ready
    then (err enodev, nothing, lit, tx')
    else let (rc, call, port') = enable a lit in (rc, call, port', tx')
