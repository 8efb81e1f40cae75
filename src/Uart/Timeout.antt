-- ===== src/Uart/Timeout.antt =====
-- The transmit timeout of src/uart_meshtastic.c, from the baud rate and the largest frame.
use meshtastic_ble_proxy.Base.{ℕ, ◌+◌, ◌*◌, ◌/◌, ◌≤◌, arith, length, Bytes}
use meshtastic_ble_proxy.Uart.{meshtastic_max_payload, frame_of}

abbrev pub uart_bits_per_byte : ℕ
uart_bits_per_byte = 10

abbrev pub uart_baud : ℕ
uart_baud = 115200

-- In whole microseconds, rounded down.
abbrev pub uart_us_per_byte : ℕ
uart_us_per_byte = uart_bits_per_byte * 1_000_000 / uart_baud

abbrev pub tx_timeout_us : ℕ
tx_timeout_us = (meshtastic_max_payload + 4) * uart_us_per_byte * 2

-- A frame of any payload that the queue accepts is over the line, at the full baud rate, before the
-- timeout, and at least 42 ms are left then: the bits of the frame and those of 42 ms are no more
-- than the timeout's.
pub frame-fits_timeout :
    (payload : Bytes)
    → length payload ≤ meshtastic_max_payload
    → length (frame_of payload) * uart_bits_per_byte * 1_000_000 + 42_000 * uart_baud
      ≤ tx_timeout_us * uart_baud
unfolding frame_of
frame-fits_timeout payload h = omega arith
