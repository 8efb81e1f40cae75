-- ===== src/Firmware.antt =====
-- `main` of src/main.c, and the firmware as a whole: the proxy, its serial port and the DMA buffers
-- that the serial driver holds.
pub mod Boot
pub mod Early
pub mod Soundness
pub mod Interleaving
pub mod Serial
mod Tests
use meshtastic_ble_proxy.Base.{ℕ, List, [], ◌∷◌, Bytes, Rc, ok, err, Errno}
use meshtastic_ble_proxy.Nanopb.{Nanopb}
use meshtastic_ble_proxy.Ble.Connections.{ble_gatt_start_advertising}
use meshtastic_ble_proxy.Ble.Start.{ble_gatt_init}
use meshtastic_ble_proxy.Uart.{Tx}
use meshtastic_ble_proxy.Uart.Driver.{Port, port_at_boot, rx_work, uart_meshtastic_init, DriverCall}
use meshtastic_ble_proxy.Uart.Driver.Line.{Dma, stopped_dma, takes, accepts, Line}
use meshtastic_ble_proxy.Upstream.{upstream_set_serve_cb}
use meshtastic_ble_proxy.Proxy.{Proxy, proxy_at_boot, session_starts, on_frames}

pub record Firmware : Type 0 where
  pub proxy : Proxy
  pub port : Port
  pub dma : Dma

unfoldable pub firmware_at_boot : Firmware
firmware_at_boot = record { proxy = proxy_at_boot; port = port_at_boot; dma = stopped_dma }

-- The serial line of the firmware, whose transmit side is the proxy's.
abbrev pub line_of : Firmware → Line
line_of f = record { port = f.port; tx = f.proxy.tx; dma = f.dma }

abbrev pub with_line : Firmware → Line → Firmware
with_line f l = record { proxy = record (f.proxy) { tx = l.tx }; port = l.port; dma = l.dma }

-- What `main` is answered: by the LEDs' pins, `bt_enable`, `bt_le_adv_start`, the serial port's
-- drivers, and `sys_rand32_get`.
pub record Answers : Type 0 where
  pub gatt : meshtastic_ble_proxy.Ble.Start.InitAnswers
  pub bt_enable : Rc
  pub bt_le_adv_start : Rc
  pub uart : meshtastic_ble_proxy.Uart.Driver.InitAnswers
  pub rand : ℕ

-- A call that returns a code, over the firmware.
abbrev pub Call : Type 0
Call = Firmware → Rc × Firmware

-- `err = f(); if (err) { return err; }`
infixl 5 ◌>>◌
abbrev pub ◌>>◌ : Call → Call → Call
◌>>◌ m k f = let (rc, f') = m f in elim rc [ err e ↦ (err e, f') | ok ↦ k f' ]

pub init_gatt : Answers → Call
init_gatt a f =
    let (rc, ble) = ble_gatt_init a.gatt f.proxy.ble in
    (rc, record f { proxy = record (f.proxy) { ble = ble } })

pub enable_bluetooth : Answers → Call
enable_bluetooth a f = (a.bt_enable, f)

pub advertise : Answers → Call
advertise a f =
    let (rc, ble) = ble_gatt_start_advertising f.proxy.ble a.bt_le_adv_start in
    (rc, record f { proxy = record (f.proxy) { ble = ble } })

pub init_uart : Answers → Call
init_uart a f =
    let (rc, call, port, tx) = uart_meshtastic_init a.uart f.port f.proxy.tx in
    (
      rc,
      record {
        proxy = record (f.proxy) { tx = tx };
        port = port;
        dma = takes f.dma (accepts rc) call;
      },
    )

module _ (pb : Nanopb) where
  -- The replay callback is set before the session starts.
  pub start_upstream : Answers → Call
  start_upstream a f =
      let wired = record (f.proxy) { upstream = upstream_set_serve_cb f.proxy.upstream } in
      (ok, record f { proxy = session_starts pb a.rand wired })

  -- The code that `main` returns; `ok` means that it has come to its endless loop.
  unfoldable pub main : Answers → Call
  unfolding init_gatt enable_bluetooth advertise init_uart start_upstream
  main a = do init_gatt a; enable_bluetooth a; advertise a; init_uart a; start_upstream a

  -- A run of `rx_work`, with the callback that `main` registers.
  unfoldable pub receives : Firmware → Firmware
  receives f =
      let (port, frames) = rx_work f.port in
      record f { proxy = on_frames pb f.proxy frames; port = port }
