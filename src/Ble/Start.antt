-- ===== src/Ble/Start.antt =====
-- `ble_gatt_init` of src/ble_gatt.c, and its LEDs. The mutexes that it initialises are not part of the
-- state.
use meshtastic_ble_proxy.Base.{Bool, true, ◌&&◌, if◌then◌else◌, Rc, ok}
use meshtastic_ble_proxy.Leds.{led_blink_tick, configure}
use meshtastic_ble_proxy.Ble.State.{Ble}

-- What `ble_gatt_init` is answered.
pub record InitAnswers : Type 0 where
  pub led_fromradio_ready : Bool
  pub led_toradio_ready : Bool
  pub led_fromradio_configure : Rc
  pub led_toradio_configure : Rc

start_leds : InitAnswers → Ble → Ble
start_leds a b =
    if a.led_fromradio_ready && a.led_toradio_ready
    then record b {
      led_fromradio = configure a.led_fromradio_configure b.led_fromradio;
      led_toradio = configure a.led_toradio_configure b.led_toradio;
      blinking = true;
    }
    else b

-- The callback is set in any case, and the answer is 0.
unfoldable pub ble_gatt_init : InitAnswers → Ble → Rc × Ble
unfolding start_leds
ble_gatt_init a b = (ok, record (start_leds a b) { toradio_handler = true })

-- `led_blink_work` reschedules itself.
unfoldable pub led_blink_work : Ble → Ble
led_blink_work b =
    let (led_fromradio, led_fromradio_active) =
      led_blink_tick b.led_fromradio b.led_fromradio_active in
    let (led_toradio, led_toradio_active) = led_blink_tick b.led_toradio b.led_toradio_active in
    record b {
      led_fromradio = led_fromradio;
      led_fromradio_active = led_fromradio_active;
      led_toradio = led_toradio;
      led_toradio_active = led_toradio_active;
      blinking = true;
    }
