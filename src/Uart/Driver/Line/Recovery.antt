-- ===== src/Uart/Driver/Line/Recovery.antt =====
-- What follows UART_RX_DISABLED in src/uart_meshtastic.c, by the answer that `uart_rx_enable` gives.
use meshtastic_ble_proxy.Base.{
  ℕ, ◌≤◌, ◌≡◌, ◌≢◌, refl, none, some, ◌⊎◌, inl, inr, arith, length, Rc, ok, err,
}
use meshtastic_ble_proxy.Uart.Driver.{RingBufPut, rx_disabled, uart_cb, rx_work, led_blink_work}
use meshtastic_ble_proxy.Uart.Driver.Line.{
  Line, stopped_dma, accepts, raise, DriverStep, ready, request, go_on, halt, disable, end_tx,
  abort_tx, Step, driver, work, blink, transmit, queue,
}

module _ (ring_buf_put : RingBufPut) where
  -- Any number of steps.
  pub data Steps (l : Line) : Line → Type 0 where
    done : Steps l l
    next : (l' l'' : Line) → Steps l l' → Step ring_buf_put l' l'' → Steps l l''

  -- The line behind UART_RX_DISABLED.
  abbrev pub disabled : Line → Rc → Line
  disabled l answer = raise ring_buf_put l stopped_dma (accepts answer) (rx_disabled answer)

  -- The driver holds no buffer to fill, and at most `n` bytes wait in the ring.
  IsDeaf : ℕ → Line → Type 0
  IsDeaf n l = (l.dma.filling ≡ none) × (length l.port.ring ≤ n)

  driver-IsDeaf : (n : ℕ) (l l' : Line) → DriverStep ring_buf_put l l' → IsDeaf n l → IsDeaf n l'
  unfolding IsDeaf raise uart_cb
  driver-IsDeaf n _ _ (ready l b more e small) d = absurd (ground arith)
  driver-IsDeaf n _ _ (request l b accepted e f) d = absurd (ground arith)
  driver-IsDeaf n _ _ (go_on l b s e f) d = absurd (ground arith)
  driver-IsDeaf n _ _ (halt l b reason e) d = d
  driver-IsDeaf n _ _ (disable l b answer e) d = absurd (ground arith)
  driver-IsDeaf n _ _ (end_tx l) d = d
  driver-IsDeaf n _ _ (abort_tx l) d = d

  step-IsDeaf : (n : ℕ) (l l' : Line) → Step ring_buf_put l l' → IsDeaf n l → IsDeaf n l'
  unfolding IsDeaf rx_work led_blink_work
  step-IsDeaf n _ _ (driver l l' step) d = driver-IsDeaf n l l' step d
  step-IsDeaf n _ _ (work l) d = (d.0, omega arith)
  step-IsDeaf n _ _ (blink l) d = d
  step-IsDeaf n _ _ (transmit l accepted) d = d
  step-IsDeaf n _ _ (queue l payload) d = d

  later-IsDeaf : (n : ℕ) (l l' : Line) → Steps l l' → IsDeaf n l → IsDeaf n l'
  later-IsDeaf n l _ done d = d
  later-IsDeaf n l _ (next l' l'' steps step) d =
      step-IsDeaf n l' l'' step (later-IsDeaf n l l' steps d)

  -- When reception is disabled and `uart_rx_enable` answers 0, the driver fills buffer 0 at once. When
  -- it fails, the driver holds no buffer after any further events and runs of the work items, and
  -- nothing more comes into the ring buffer.
  pub disabled-recovers_or_deaf :
      (l l' : Line) (answer : Rc)
      → Steps (disabled l answer) l'
      → ((answer ≡ ok)
          × ((disabled l answer).dma.filling ≡ some 0)
          × ((disabled l answer).port.active_buf ≡ 0))
        ⊎ ((answer ≢ ok) × (l'.dma.filling ≡ none) × (length l'.port.ring ≤ length l.port.ring))
  unfolding IsDeaf raise uart_cb
  disabled-recovers_or_deaf l l' ok steps = inl (refl, refl, refl)
  disabled-recovers_or_deaf l l' (err e) steps =
      let (stopped, kept) =
        later-IsDeaf (length l.port.ring) (disabled l (err e)) l' steps (refl, omega arith) in
      inr (λ h. absurd (ground arith), stopped, kept)
