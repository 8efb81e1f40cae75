-- ===== src/Uart/Driver/Overflow.antt =====
-- What UART_RX_RDY in src/uart_meshtastic.c puts into the ring buffer, and what it loses.
use meshtastic_ble_proxy.Base.{
  ℕ, ◌+◌, ◌≤◌, ◌<◌, ◌≡◌, refl, true, ◌++◌, ◌⊎◌, inl, inr, arith, leb, length, take, take-all,
  length-append, length-take, Bytes, Bool-cases,
}
use meshtastic_ble_proxy.Uart.{Tx}
use meshtastic_ble_proxy.Uart.Driver.{
  Port, RingBufPut, IsRingBufPut, ring_buf_size, rx_rdy, uart_cb,
}

module _ (ring_buf_put : RingBufPut) (law : IsRingBufPut ring_buf_put) where
  -- What the driver received goes into the ring buffer whole where it has room. Where it has not,
  -- only a first part goes in, the rest is lost, and nothing else in the module's state tells one
  -- case from the other.
  pub rx_rdy-stores :
      (port : Port) (tx : Tx) (more : Bytes)
      → length port.ring ≤ ring_buf_size
      → let (call, port', tx') = uart_cb ring_buf_put port tx (rx_rdy more) in
        (n : ℕ) × (port'
          ≡ record port { ring = port.ring ++ take n more; rx_active = true; submitted = true })
        × (tx' ≡ tx)
        × (length port'.ring ≤ ring_buf_size)
        × (((length port.ring + length more ≤ ring_buf_size) × (take n more ≡ more))
            ⊎ ((ring_buf_size < length port.ring + length more) × (n < length more)))
  unfolding uart_cb
  rx_rdy-stores port tx more h =
      let n = ring_buf_put port.ring more in
      let bound : length (port.ring ++ take n more) ≤ ring_buf_size = omega (
        arith,
        law.fits port.ring more h,
        length-append port.ring (take n more),
        length-take n more,
      ) in
      (
        n,
        refl,
        refl,
        bound,
        elim (Bool-cases (leb (length port.ring + length more) ring_buf_size)) [
          | inl room ↦
              inl (
                ground arith,
                take-all n more (omega (arith, law.all port.ring more (ground arith))),
              )
          | inr full ↦
              let over : ring_buf_size < length port.ring + length more = ground arith in
              inr (over, omega (arith, law.fits port.ring more h))
        ],
      )
