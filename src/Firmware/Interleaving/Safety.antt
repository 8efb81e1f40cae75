-- ===== src/Firmware/Interleaving/Safety.antt =====
-- Between the calls of `main` of src/main.c the whole firmware stays sound.
use meshtastic_ble_proxy.Base.{
  ℕ, ◌≡◌, refl, ap, ◌∙◌, true, false, Option, Bytes, Rc, ok, err, arith, inl, inr,
}
use meshtastic_ble_proxy.Nanopb.{Nanopb}
use meshtastic_ble_proxy.Uart.{Tx, uart_meshtastic_tx}
use meshtastic_ble_proxy.Uart.Driver.{port_at_boot, RingBufPut, IsRingBufPut}
use meshtastic_ble_proxy.Proxy.{
  Proxy, toradio_write, keepalive_fires, session_starts, on_toradio_ble,
}
use meshtastic_ble_proxy.Ble.State.{Conn}
use meshtastic_ble_proxy.Proxy.Phones.{toradio-forwards}
use meshtastic_ble_proxy.Proxy.Soundness.Steps.{
  Local, write, register, read, connect, leave, keepalive, start, init, set_callback, transmit,
}
use meshtastic_ble_proxy.Upstream.Outcomes.{keepalive_cases, start_cases}
use meshtastic_ble_proxy.Firmware.{
  Firmware, firmware_at_boot, Answers, init_gatt, enable_bluetooth, advertise, init_uart,
  start_upstream,
}
use meshtastic_ble_proxy.Firmware.Soundness.{
  Step, IsSound, IsFresh, step-IsSound, firmware_at_boot-IsFresh, init_gatt-IsFresh,
  advertise-IsFresh, init_uart-IsSound, start_upstream-IsSound,
}
use meshtastic_ble_proxy.Firmware.Interleaving.{
  Phase, powered, gatt_set, bluetooth_on, advertised, listening, looping, returned, next_call,
  succeeds, after, sends, Between, quietly, blink_ble, with_port, Boots, power, call, meanwhile,
}

queue_idle :
    (tx : Tx) (payload : Bytes) → (uart_meshtastic_tx tx payload).1.in_progress ≡ tx.in_progress
unfolding uart_meshtastic_tx
queue_idle tx payload = ground arith

module _ (pb : Nanopb) (attr_read : Bytes → ℕ → ℕ → Option Bytes) (ring_buf_put : RingBufPut) where
  handled_idle :
      (p : Proxy) (conn : Conn) (buf : Bytes)
      → (on_toradio_ble pb p conn buf).tx.in_progress ≡ p.tx.in_progress
  handled_idle p conn buf =
      let (_, _, settled) = toradio-forwards pb p conn buf in
      elim settled [
        | inl (_, same) ↦ ap (λ t. t.in_progress) same
        | inr (_, sent, _, _) ↦ ap (λ t. t.in_progress) sent ∙ queue_idle p.tx buf
      ]

  write_idle :
      (p : Proxy) (conn : Conn) (buf : Bytes) (offset : ℕ)
      → (toradio_write pb p conn buf offset).1.tx.in_progress ≡ p.tx.in_progress
  unfolding toradio_write
  write_idle p conn buf offset = ground (
    arith,
    handled_idle (record p { ble = record (p.ble) { led_toradio_active = true } }) conn buf,
  )

  -- Only a run of the transmit work item begins a transmission.
  quiet_idle :
      {p p' : Proxy} (s : Local pb attr_read p p')
      → sends pb attr_read ring_buf_put s ≡ false
      → p'.tx.in_progress ≡ p.tx.in_progress
  unfolding sends keepalive_fires session_starts
  quiet_idle (write p conn buf offset) h = write_idle p conn buf offset
  quiet_idle (register p conn buf offset) h = refl
  quiet_idle (read p conn len offset) h = refl
  quiet_idle (connect p conn failed answer new) h = refl
  quiet_idle (leave p conn answer) h = refl
  quiet_idle (keepalive p) h =
      let (_, sent) = keepalive_cases pb p.upstream p.tx in
      elim sent [
        | inl same ↦ ap (λ t. t.in_progress) same
        | inr (buf, e) ↦ ap (λ t. t.in_progress) e ∙ queue_idle p.tx buf
      ]
  quiet_idle (start p rand) h = elim (start_cases pb rand p.upstream p.cache p.tx) [
    | inl (_, _, same) ↦ ap (λ t. t.in_progress) same
    | inr (buf, _, _, sent) ↦ ap (λ t. t.in_progress) sent ∙ queue_idle p.tx buf
  ]
  quiet_idle (init p a) h = refl
  quiet_idle (set_callback p) h = refl
  quiet_idle (transmit p accepted) h = absurd (ground arith)

  module _ (law : IsRingBufPut ring_buf_put) where
    -- Before the serial port is started.
    record IsEarly (f : Firmware) : Type 0 where
      no_device : f.port.uart_dev ≡ false
      fresh : IsFresh pb attr_read ring_buf_put law f

    abbrev Stands : Phase → Firmware → Type 0
    Stands powered f = IsEarly f
    Stands gatt_set f = IsEarly f
    Stands bluetooth_on f = IsEarly f
    Stands advertised f = IsEarly f
    Stands _ f = IsSound pb attr_read ring_buf_put f

    Stands-IsSound : (ph : Phase) (f : Firmware) → Stands ph f → IsSound pb attr_read ring_buf_put f
    Stands-IsSound powered f w = w.fresh.sound
    Stands-IsSound gatt_set f w = w.fresh.sound
    Stands-IsSound bluetooth_on f w = w.fresh.sound
    Stands-IsSound advertised f w = w.fresh.sound
    Stands-IsSound listening f w = w
    Stands-IsSound looping f w = w
    Stands-IsSound returned f w = w

    between-IsSound :
        (f f' : Firmware)
        → Between pb attr_read ring_buf_put f f'
        → IsSound pb attr_read ring_buf_put f
        → IsSound pb attr_read ring_buf_put f'
    between-IsSound _ _ (quietly f p s _) w =
        step-IsSound pb attr_read ring_buf_put law f _ (Step.locally f p s) w
    between-IsSound _ _ (blink_ble f) w =
        step-IsSound pb attr_read ring_buf_put law f _ (Step.blink_ble f) w
    between-IsSound _ _ (with_port f f' device step) w =
        step-IsSound pb attr_read ring_buf_put law f f' step w

    between-IsEarly :
        (f f' : Firmware) → Between pb attr_read ring_buf_put f f' → IsEarly f → IsEarly f'
    between-IsEarly _ _ (quietly f p s quiet) w = record {
      no_device = w.no_device;
      fresh = record {
        sound = between-IsSound f _ (quietly f p s quiet) w.fresh.sound;
        not_sending = quiet_idle s quiet ∙ w.fresh.not_sending;
        no_buffers = w.fresh.no_buffers;
      };
    }
    between-IsEarly _ _ (blink_ble f) w = record {
      no_device = w.no_device;
      fresh = record {
        sound = between-IsSound f _ (blink_ble f) w.fresh.sound;
        not_sending = w.fresh.not_sending;
        no_buffers = w.fresh.no_buffers;
      };
    }
    between-IsEarly _ _ (with_port f f' device step) w = absurd (ground (arith, w.no_device))

    between-Stands :
        (ph : Phase) (f f' : Firmware)
        → Between pb attr_read ring_buf_put f f'
        → Stands ph f
        → Stands ph f'
    between-Stands powered f f' b w = between-IsEarly f f' b w
    between-Stands gatt_set f f' b w = between-IsEarly f f' b w
    between-Stands bluetooth_on f f' b w = between-IsEarly f f' b w
    between-Stands advertised f f' b w = between-IsEarly f f' b w
    between-Stands listening f f' b w = between-IsSound f f' b w
    between-Stands looping f f' b w = between-IsSound f f' b w
    between-Stands returned f f' b w = between-IsSound f f' b w

    outcome :
        (ph : Phase) (rc : Rc) (f : Firmware)
        → Stands (succeeds ph) f
        → IsSound pb attr_read ring_buf_put f
        → Stands (after ph rc) f
    outcome ph ok f went_on failed = went_on
    outcome ph (err e) f went_on failed = failed

    early_outcome :
        (ph : Phase) (rc : Rc) (f : Firmware)
        → Stands (succeeds ph) f ≡ IsEarly f
        → IsEarly f
        → Stands (after ph rc) f
    early_outcome ph rc f same w = outcome ph rc f (rw same w) w.fresh.sound

    called-Stands :
        (a : Answers) (ph : Phase) (f : Firmware)
        → Stands ph f
        → let (rc, f') = next_call pb attr_read ring_buf_put a ph f in Stands (after ph rc) f'
    unfolding next_call enable_bluetooth init_gatt advertise
    called-Stands a powered f w =
        early_outcome powered (init_gatt a f).0 (init_gatt a f).1 refl (record {
          no_device = w.no_device;
          fresh = init_gatt-IsFresh pb attr_read ring_buf_put law a f w.fresh;
        })
    called-Stands a gatt_set f w = early_outcome gatt_set a.bt_enable f refl w
    called-Stands a bluetooth_on f w =
        early_outcome bluetooth_on (advertise a f).0 (advertise a f).1 refl (record {
          no_device = w.no_device;
          fresh = advertise-IsFresh pb attr_read ring_buf_put law a f w.fresh;
        })
    called-Stands a advertised f w =
        let sound = init_uart-IsSound pb attr_read ring_buf_put law a f w.fresh in
        outcome advertised (init_uart a f).0 (init_uart a f).1 sound sound
    called-Stands a listening f w =
        let sound = start_upstream-IsSound pb attr_read ring_buf_put law a f w in
        outcome listening (start_upstream pb a f).0 (start_upstream pb a f).1 sound sound
    called-Stands a looping f w = w
    called-Stands a returned f w = w

    boots-Stands :
        (a : Answers) (ph : Phase) (f : Firmware)
        → Boots pb attr_read ring_buf_put a ph f
        → Stands ph f
    unfolding firmware_at_boot port_at_boot
    boots-Stands a _ _ power = record {
      no_device = refl;
      fresh = firmware_at_boot-IsFresh pb attr_read ring_buf_put law;
    }
    boots-Stands a _ _ (call ph f before) = called-Stands a ph f (boots-Stands a ph f before)
    boots-Stands a _ _ (meanwhile ph f f' before step) =
        between-Stands ph f f' step (boots-Stands a ph f before)

    -- From power-on, with whatever the phones, the keepalive and the LEDs do between any two calls of
    -- `main`, and the driver, the node and all work items too once the serial device is set, also
    -- where `main` has returned an error: the slots keep their invariant, every cached frame fits the
    -- buffer that a read stages it in, at most six phones wait and none twice, the receiver, the ring
    -- buffer and the transmit queue stay within their bounds, what waits in them has a run of its work
    -- item to come, and the driver's two DMA buffers are never the same one.
    pub boots-IsSound :
        (a : Answers) (ph : Phase) (f : Firmware)
        → Boots pb attr_read ring_buf_put a ph f
        → IsSound pb attr_read ring_buf_put f
    boots-IsSound a ph f b = Stands-IsSound ph f (boots-Stands a ph f b)
