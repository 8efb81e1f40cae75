-- ===== src/Proxy/Soundness/Phones.antt =====
-- A write of a phone keeps the invariant of the whole proxy.
use meshtastic_ble_proxy.Base.{
  ℕ, Bool, true, false, Option, none, some, if◌then◌else◌, Bytes, Rc, ok, err, Option-cases, inl,
  inr,
}
use meshtastic_ble_proxy.Nanopb.{Nanopb}
use meshtastic_ble_proxy.Proto.{ToradioInfo, proto_decode_toradio}
use meshtastic_ble_proxy.Uart.{Tx, uart_meshtastic_tx}
use meshtastic_ble_proxy.Uart.Transmit.{tx-IsSafe}
use meshtastic_ble_proxy.Ble.State.{Conn}
use meshtastic_ble_proxy.Ble.Burst.{park_slot}
use meshtastic_ble_proxy.Ble.Burst.Parked.{replay}
use meshtastic_ble_proxy.Ble.Table.Operations.{IsValidBle, replay-IsValidBle, reply-IsValidBle}
use meshtastic_ble_proxy.Ble.Table.Lifecycle.{park-IsValidBle}
use meshtastic_ble_proxy.Upstream.{
  UpstreamState, boot, fetching, cache_ready, live, upstream_keepalive_reschedule,
}
use meshtastic_ble_proxy.Upstream.Waiting.{pending_phone-IsOnce}
use meshtastic_ble_proxy.Upstream.Outcomes.{on_pending-keeps}
use meshtastic_ble_proxy.Proxy.{
  Proxy, ble_gatt_park_pending, serve_want_config, forward, handle_toradio, on_toradio_ble,
}
use meshtastic_ble_proxy.Proxy.Soundness.{IsSoundProxy, if-IsSound, with_ble}

module _ (pb : Nanopb) (p : Proxy) (w : IsSoundProxy pb p) where
  -- A write that is parked.
  park-IsSound : (conn : Conn) (nonce : ℕ) → IsSoundProxy pb (ble_gatt_park_pending pb p conn nonce)
  unfolding ble_gatt_park_pending
  park-IsSound conn nonce = elim (Option-cases (park_slot p.ble conn nonce)) [
    | inl e ↦ rw (ble_gatt_park_pending, e) w
    | inr (b, e) ↦
        let v = park-IsValidBle p.ble b conn nonce e w.slots in
        let (once, few, _, _) =
          pending_phone-IsOnce (replay pb) p.cache p.upstream conn b w.once w.few in
        rw (ble_gatt_park_pending, e)
          (record {
            slots =
                on_pending-keeps (replay pb) pb IsValidBle (λ c b'. replay-IsValidBle pb b' c 0)
                  p.cache p.upstream conn b v;
            servable = w.servable;
            once = once;
            few = few;
            tx = w.tx;
          })
  ]

  want_config-IsSound :
      (st : UpstreamState) (conn : Conn) (nonce : ℕ)
      → IsSoundProxy pb (serve_want_config pb st p conn nonce)
  unfolding serve_want_config
  want_config-IsSound boot conn nonce = park-IsSound conn nonce
  want_config-IsSound fetching conn nonce = park-IsSound conn nonce
  want_config-IsSound cache_ready conn nonce =
      with_ble pb p w _ (replay-IsValidBle pb p.ble conn nonce w.slots)
  want_config-IsSound live conn nonce =
      with_ble pb p w _ (replay-IsValidBle pb p.ble conn nonce w.slots)

  forward-IsSound : (payload : Bytes) → IsSoundProxy pb (forward pb p payload)
  unfolding forward upstream_keepalive_reschedule
  forward-IsSound payload = go (uart_meshtastic_tx p.tx payload).0 p.upstream.keepalive_armed
    where
      tx' : Tx
      tx' = (uart_meshtastic_tx p.tx payload).1

      go :
          (rc : Rc) (armed : Bool)
          → IsSoundProxy pb (elim rc [
            | ok ↦ record p {
              tx = tx';
              upstream =
                  if armed then record (p.upstream) { keepalive_scheduled = true } else p.upstream;
            }
            | err e ↦ record p { tx = tx' }
          ])
      go ok true = record {
        slots = w.slots;
        servable = w.servable;
        once = w.once;
        few = w.few;
        tx = tx-IsSafe p.tx payload w.tx;
      }
      go ok false = record {
        slots = w.slots;
        servable = w.servable;
        once = w.once;
        few = w.few;
        tx = tx-IsSafe p.tx payload w.tx;
      }
      go (err e) armed = record {
        slots = w.slots;
        servable = w.servable;
        once = w.once;
        few = w.few;
        tx = tx-IsSafe p.tx payload w.tx;
      }

  pub on_toradio-IsSound :
      (conn : Conn) (payload : Bytes) → IsSoundProxy pb (on_toradio_ble pb p conn payload)
  unfolding on_toradio_ble handle_toradio
  on_toradio-IsSound conn payload = go (proto_decode_toradio pb payload)
    where
      go :
          (decoded : Option ToradioInfo)
          → IsSoundProxy pb (elim decoded [
            | none ↦ record p { tx = (uart_meshtastic_tx p.tx payload).1 }
            | some ti ↦ handle_toradio pb p conn payload ti
          ])
      go none = record {
        slots = w.slots;
        servable = w.servable;
        once = w.once;
        few = w.few;
        tx = tx-IsSafe p.tx payload w.tx;
      }
      go (some ti) =
          if-IsSound ti.has_want_config
            (want_config-IsSound p.upstream.state conn ti.want_config_id)
            (if-IsSound ti.has_heartbeat
              (with_ble pb p w _ (reply-IsValidBle pb p.ble conn w.slots))
              (forward-IsSound payload))
