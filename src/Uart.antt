-- ===== src/Uart.antt =====
-- src/uart_meshtastic.c and src/uart_meshtastic.h: the serial framing, the receive state machine
-- and the transmit queue. The ring buffer, the message queue and the driver are Zephyr's: bytes come
-- in as a list, the queue is a list of at most its depth, and the driver's answers are arguments.
pub mod Receive
pub mod Transmit
pub mod Driver
pub mod Progress
pub mod Timeout
pub mod Sample
mod Tests
use meshtastic_ble_proxy.Base.{
  ℕ, suc, ◌+◌, ◌*◌, ◌/◌, ◌%◌, ◌^◌, Bool, true, false, ◌||◌, Option, none, some, List, [], ◌∷◌, ◌++◌,
  ltb, leb, ◌==◌, if◌then◌else◌, length, set, take, replicate, bit_or, Bytes, Rc, ok, err, Errno,
  enomem, emsgsize, enodev,
}

abbrev pub meshtastic_magic1 : ℕ
meshtastic_magic1 = 0x94

abbrev pub meshtastic_magic2 : ℕ
meshtastic_magic2 = 0xC3

abbrev pub meshtastic_max_payload : ℕ
meshtastic_max_payload = 512

abbrev pub tx_queue_depth : ℕ
tx_queue_depth = 4

-- `enum rx_state`
pub data RxState : Type 0 where
  wait_magic1 wait_magic2 wait_len_hi wait_len_lo wait_payload : RxState

-- `rx_sm`
pub record RxSm : Type 0 where
  pub state : RxState
  pub expected_len : ℕ
  pub received_len : ℕ
  pub payload : Bytes

pub rx_at_boot : RxSm
rx_at_boot = record {
  state = wait_magic1;
  expected_len = 0;
  received_len = 0;
  payload = replicate meshtastic_max_payload 0;
}

-- The case RX_WAIT_PAYLOAD.
take_byte : RxSm → ℕ → RxSm × Option Bytes
take_byte sm byte =
    let payload = set sm.payload sm.received_len byte in
    let received = (sm.received_len + 1) % 2 ^ 16 in
    if received == sm.expected_len
    then (
      record sm { payload = payload; received_len = received; state = wait_magic1 },
      some (take received payload),
    )
    else (record sm { payload = payload; received_len = received }, none)

-- The case RX_WAIT_LEN_LO.
take_len_lo : RxSm → ℕ → RxSm
take_len_lo sm byte =
    let expected = bit_or sm.expected_len byte in
    if (expected == 0) || ltb meshtastic_max_payload expected
    then record sm { expected_len = expected; state = wait_magic1 }
    else record sm { expected_len = expected; received_len = 0; state = wait_payload }

rx_dispatch : RxState → RxSm → ℕ → RxSm × Option Bytes
unfolding take_byte take_len_lo
rx_dispatch wait_magic1 sm byte =
    (if byte == meshtastic_magic1 then record sm { state = wait_magic2 } else sm, none)
rx_dispatch wait_magic2 sm byte = (
  if byte == meshtastic_magic2
      then record sm { state = wait_len_hi }
      else if byte == meshtastic_magic1
      then record sm { state = wait_magic2 }
      else record sm { state = wait_magic1 },
  none,
)
rx_dispatch wait_len_hi sm byte =
    (record sm { expected_len = (byte * 2 ^ 8) % 2 ^ 16; state = wait_len_lo }, none)
rx_dispatch wait_len_lo sm byte = (take_len_lo sm byte, none)
rx_dispatch wait_payload sm byte = take_byte sm byte

-- The option is the frame that is handed to `fromradio_cb`.
unfoldable pub rx_process_byte : RxSm → ℕ → RxSm × Option Bytes
unfolding rx_dispatch
rx_process_byte sm byte = rx_dispatch sm.state sm byte

-- The frame of one byte, if any, before those of the bytes behind it.
abbrev pub hand_on : Option Bytes → List Bytes → List Bytes
hand_on none frames = frames
hand_on (some f) frames = f ∷ frames

-- The loop of `rx_work_handler` over the bytes in the ring buffer, and the frames handed on.
pub rx_work_handler : RxSm → Bytes → RxSm × List Bytes
rx_work_handler sm [] = (sm, [])
rx_work_handler sm (byte ∷ bytes) =
    let (sm', out) = rx_process_byte sm byte in
    let (sm'', frames) = rx_work_handler sm' bytes in (sm'', hand_on out frames)

-- The transmit side: `tx_msgq`, oldest first, `tx_in_progress`, `tx_frame_buf` cut to what the last
-- `uart_tx` was given, and whether `tx_work` is submitted and has not run yet.
pub record Tx : Type 0 where
  pub msgq : List Bytes
  pub in_progress : Bool
  pub frame_buf : Bytes
  pub submitted : Bool

unfoldable pub tx_at_boot : Tx
tx_at_boot = record { msgq = []; in_progress = false; frame_buf = []; submitted = false }

-- The Meshtastic frame of a queued payload.
unfoldable pub frame_of : Bytes → Bytes
frame_of payload =
    meshtastic_magic1
    ∷ meshtastic_magic2
    ∷ (length payload / 2 ^ 8) % 2 ^ 8
    ∷ length payload % 2 ^ 8
    ∷ payload

-- k_msgq_put with K_NO_WAIT fails on a full queue.
unfoldable pub uart_meshtastic_tx : Tx → Bytes → Rc × Tx
uart_meshtastic_tx tx payload =
    if ltb meshtastic_max_payload (length payload)
    then (err emsgsize, tx)
    else if ltb (length tx.msgq) tx_queue_depth
    then (ok, record tx { msgq = tx.msgq ++ payload ∷ []; submitted = true })
    else (err enomem, tx)

-- What one run of the work item does: nothing, a frame given to `uart_tx`, or a frame that
-- `uart_tx` refused, after which the item submits itself.
pub data TxRun : Type 0 where
  idle : TxRun
  sent : Bytes → TxRun
  dropped : Bytes → TxRun

tx_start : Tx → Bytes → List Bytes → Bool → TxRun × Tx
tx_start tx payload rest accepted =
    let frame = frame_of payload in
    if accepted
    then (sent frame, record tx { msgq = rest; frame_buf = frame; in_progress = true })
    else (
      dropped frame,
      record tx { msgq = rest; frame_buf = frame; in_progress = false; submitted = true },
    )

-- The handler, once the item has left the work queue. `accepted` is whether `uart_tx` answers 0.
handle_tx : Tx → Bool → TxRun × Tx
unfolding tx_start
handle_tx tx accepted =
    if tx.in_progress
    then (idle, tx)
    else elim tx.msgq [ [] ↦ (idle, tx) | payload ∷ rest ↦ tx_start tx payload rest accepted ]

-- A run of the work item, which leaves the work queue first.
pub tx_work_handler : Tx → Bool → TxRun × Tx
unfolding handle_tx
tx_work_handler tx accepted = handle_tx (record tx { submitted = false }) accepted

-- UART_TX_DONE and UART_TX_ABORTED in `uart_cb`.
pub tx_done : Tx → Tx
tx_done tx = record tx { in_progress = false; submitted = true }
