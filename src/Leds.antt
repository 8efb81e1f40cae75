-- ===== src/Leds.antt =====
-- The activity LEDs: `led_blink_tick`, of which src/ble_gatt.c and src/uart_meshtastic.c have a copy
-- each, and the configuration of a pin. A level is true for lit; Zephyr's GPIO answers are arguments.
use meshtastic_ble_proxy.Base.{
  ◌≡◌, refl, Bool, true, false, not, List, [], ◌∷◌, ◌++◌, if◌then◌else◌, Rc, ok, err,
}

-- The LED's new level and the activity flag, which is cleared.
unfoldable pub led_blink_tick : Bool → Bool → Bool × Bool
led_blink_tick led active = (if active then not led else false, false)

-- A pin that is configured as an inactive output is off; an error is only logged.
abbrev pub configure : Rc → Bool → Bool
configure ok led = false
configure (err e) led = led

-- Ticks, each with whether there was traffic since the last.
pub ticks : Bool → List Bool → Bool
ticks led [] = led
ticks led (active ∷ later) = ticks (led_blink_tick led active).0 later

ticks-append : (led : Bool) (xs ys : List Bool) → ticks led (xs ++ ys) ≡ ticks (ticks led xs) ys
unfolding ticks
ticks-append led [] ys = refl
ticks-append led (x ∷ xs) ys = ticks-append (led_blink_tick led x).0 xs ys

-- A tick with no traffic before it leaves the LED off, and one with traffic changes its level,
-- whatever happened before.
pub ticks-snoc :
    (led : Bool) (before : List Bool)
    → (ticks led (before ++ false ∷ []) ≡ false)
      × (ticks led (before ++ true ∷ []) ≡ not (ticks led before))
unfolding ticks led_blink_tick
ticks-snoc led before = (ticks-append led before (false ∷ []), ticks-append led before (true ∷ []))
