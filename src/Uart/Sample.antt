-- ===== src/Uart/Sample.antt =====
-- Data for the tests: a ring buffer as Zephyr's, and a port of src/uart_meshtastic.c.
use meshtastic_ble_proxy.Base.{refl, min, ◌-◌, true, arith, length}
use meshtastic_ble_proxy.Uart.{rx_at_boot}
use meshtastic_ble_proxy.Uart.Receive.{IsIdle}
use meshtastic_ble_proxy.Uart.Driver.{Port, port_at_boot, RingBufPut, IsRingBufPut, ring_buf_size}

-- As Zephyr's ring buffer: what fits of what it is given.
abbrev pub what_fits : RingBufPut
what_fits ring more = min (ring_buf_size - length ring) (length more)

pub what_fits-IsRingBufPut : IsRingBufPut what_fits
what_fits-IsRingBufPut = record {
  given = λ ring more. omega arith;
  fits = λ ring more h. omega arith;
  all = λ ring more h. omega arith;
}

-- The port once its callback is set.
abbrev pub open_port : Port
open_port = record port_at_boot { fromradio_cb = true }

pub rx_at_boot-IsIdle : IsIdle rx_at_boot
unfolding rx_at_boot
rx_at_boot-IsIdle = record { between = refl; buffer = refl }
