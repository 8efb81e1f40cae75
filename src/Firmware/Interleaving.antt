-- ===== src/Firmware/Interleaving.antt =====
-- `main` of src/main.c call by call, with what phones, drivers and work items do between its calls.
pub mod Safety
use meshtastic_ble_proxy.Base.{
  ℕ, ◌≡◌, ◌≢◌, refl, sym, ap, ◌∙◌, Bool, true, false, Option, List, Bytes, Rc, ok, err, Errno,
  arith, inl, inr,
}
use meshtastic_ble_proxy.Nanopb.{Nanopb}
use meshtastic_ble_proxy.Uart.{Tx, uart_meshtastic_tx, tx_at_boot}
use meshtastic_ble_proxy.Uart.Driver.{RingBufPut, IsRingBufPut}
use meshtastic_ble_proxy.Ble.Start
use meshtastic_ble_proxy.Proxy.{
  Proxy, toradio_write, keepalive_fires, session_starts, on_toradio_ble,
}
use meshtastic_ble_proxy.Ble.State.{Conn}
use meshtastic_ble_proxy.Proxy.Phones.{toradio-forwards}
use meshtastic_ble_proxy.Proxy.Soundness.{with_ble}
use meshtastic_ble_proxy.Proxy.Soundness.Steps.{
  Local, write, register, read, connect, leave, keepalive, start, set_callback, transmit,
  local-IsSound,
}
use meshtastic_ble_proxy.Upstream.Outcomes.{keepalive_cases, start_cases}
use meshtastic_ble_proxy.Firmware.{
  Firmware, firmware_at_boot, Answers, Call, init_gatt, enable_bluetooth, advertise, init_uart,
  start_upstream,
}
use meshtastic_ble_proxy.Firmware.Soundness
use meshtastic_ble_proxy.Firmware.Soundness.{Step, IsSound, IsFresh}

-- How far `main` has come: nothing called, its calls behind it one by one, its endless loop, or its
-- return behind a call that failed.
pub data Phase : Type 0 where
  powered gatt_set bluetooth_on advertised listening looping returned : Phase

abbrev pub succeeds : Phase → Phase
succeeds powered = gatt_set
succeeds gatt_set = bluetooth_on
succeeds bluetooth_on = advertised
succeeds advertised = listening
succeeds listening = looping
succeeds looping = looping
succeeds returned = returned

-- `if (err) { return err; }`
abbrev pub after : Phase → Rc → Phase
after ph ok = succeeds ph
after ph (err e) = returned

module _ (pb : Nanopb) (attr_read : Bytes → ℕ → ℕ → Option Bytes) (ring_buf_put : RingBufPut) where
  -- The next call; there is none once `main` loops or has returned.
  unfoldable pub next_call : Answers → Phase → Call
  next_call a powered = init_gatt a
  next_call a gatt_set = enable_bluetooth a
  next_call a bluetooth_on = advertise a
  next_call a advertised = init_uart a
  next_call a listening = start_upstream pb a
  next_call a looping = λ f. (ok, f)
  next_call a returned = λ f. (ok, f)

  -- Whether a step is a run of the transmit work item.
  unfoldable pub sends : {p p' : Proxy} → Local pb attr_read p p' → Bool
  sends (write p conn buf offset) = false
  sends (transmit p accepted) = true
  sends _ = false

  -- Between two calls. Before the serial device is set the phones, the keepalive and the LEDs go on,
  -- but the transmit work item does not run, since `uart_tx` has no device then.
  pub data Between : Firmware → Firmware → Type 0 where
    quietly :
        (f : Firmware) (p : Proxy) (s : Local pb attr_read f.proxy p)
        → sends s ≡ false
        → Between f (record f { proxy = p })
    blink_ble :
        (f : Firmware)
        → Between f
            (record f { proxy = record (f.proxy) { ble = Start.led_blink_work f.proxy.ble } })
    with_port :
        (f f' : Firmware)
        → f.port.uart_dev ≡ true
        → Step pb attr_read ring_buf_put f f'
        → Between f f'

  pub data Boots (a : Answers) : Phase → Firmware → Type 0 where
    power : Boots a powered firmware_at_boot
    call :
        (ph : Phase) (f : Firmware)
        → Boots a ph f
        → Boots a (after ph (next_call a ph f).0) (next_call a ph f).1
    meanwhile : (ph : Phase) (f f' : Firmware) → Boots a ph f → Between f f' → Boots a ph f'
