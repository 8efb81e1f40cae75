-- ===== src/Proxy/Phase/Phones.antt =====
-- The phases of the session and the writes of phones, by src/main.c.
use meshtastic_ble_proxy.Base.{
  ℕ, ◌≡◌, refl, sym, subst, Bool, true, false, arith, if◌then◌else◌, Option, none, some, Bytes, Rc,
  ok, err, inl, inr, Option-cases,
}
use meshtastic_ble_proxy.Nanopb.{Nanopb}
use meshtastic_ble_proxy.Proto.{ToradioInfo, proto_decode_toradio}
use meshtastic_ble_proxy.Uart.{Tx, uart_meshtastic_tx}
use meshtastic_ble_proxy.Ble.State.{Conn}
use meshtastic_ble_proxy.Ble.Burst.{park_slot}
use meshtastic_ble_proxy.Ble.Burst.Parked.{replay}
use meshtastic_ble_proxy.Upstream.{
  UpstreamState, boot, fetching, cache_ready, live, upstream_on_pending_phone,
  upstream_keepalive_reschedule,
}
use meshtastic_ble_proxy.Proxy.{
  Proxy, ble_gatt_park_pending, serve_want_config, forward, handle_toradio, on_toradio_ble,
}
use meshtastic_ble_proxy.Proxy.Phase.{Moves, stays, InPhase, Follows, Follow, if-Follow}

module _ (pb : Nanopb) (p : Proxy) (w : InPhase p.upstream p.cache) where
  abbrev st : UpstreamState
  st = p.upstream.state

  -- A phone that waits is added while the cache is not published.
  pending-Follow :
      {S : Type 0} (serve : ℕ → ℕ → S → S) (conn : Conn) (s : S)
      → Follows st (upstream_on_pending_phone serve p.cache p.upstream conn s).0 p.cache
  unfolding upstream_on_pending_phone
  pending-Follow serve conn s =
      let same : (upstream_on_pending_phone serve p.cache p.upstream conn s).0.state ≡ st =
        ground arith in
      (
        record {
          settled = ground (arith, w.settled);
          published = λ ready. ground (arith, w.published ready);
          plain = ground (arith, w.plain);
          armed = ground (arith, w.armed);
          scheduled = ground (arith, w.scheduled);
        },
        subst (Moves st) (sym same) (stays st),
      )

  park-Follow : (conn : Conn) (nonce : ℕ) → Follow st (ble_gatt_park_pending pb p conn nonce)
  unfolding ble_gatt_park_pending
  park-Follow conn nonce = elim (Option-cases (park_slot p.ble conn nonce)) [
    | inl e ↦ rw (ble_gatt_park_pending, e) (w, stays st)
    | inr (b, e) ↦ rw (ble_gatt_park_pending, e) (pending-Follow (replay pb) conn b)
  ]

  want_config-Follow :
      (phase : UpstreamState) (conn : Conn) (nonce : ℕ)
      → Follow st (serve_want_config pb phase p conn nonce)
  unfolding serve_want_config
  want_config-Follow boot conn nonce = park-Follow conn nonce
  want_config-Follow fetching conn nonce = park-Follow conn nonce
  want_config-Follow cache_ready conn nonce = (w, stays st)
  want_config-Follow live conn nonce = (w, stays st)

  rescheduled : Follows st (upstream_keepalive_reschedule p.upstream) p.cache
  unfolding upstream_keepalive_reschedule
  rescheduled = go p.upstream.keepalive_armed refl
    where
      go :
          (b : Bool)
          → p.upstream.keepalive_armed ≡ b
          → Follows st
              (if b then record (p.upstream) { keepalive_scheduled = true } else p.upstream)
              p.cache
      go true e = (
        record {
          settled = w.settled;
          published = w.published;
          plain = w.plain;
          armed = w.armed;
          scheduled = λ _. refl;
        },
        stays st,
      )
      go false e = (w, stays st)

  forward-Follow : (payload : Bytes) → Follow st (forward pb p payload)
  unfolding forward
  forward-Follow payload = go (uart_meshtastic_tx p.tx payload).0
    where
      tx' : Tx
      tx' = (uart_meshtastic_tx p.tx payload).1

      go :
          (rc : Rc)
          → Follow st (elim rc [
            | ok ↦ record p { tx = tx'; upstream = upstream_keepalive_reschedule p.upstream }
            | err e ↦ record p { tx = tx' }
          ])
      go ok = rescheduled
      go (err e) = (w, stays st)

  pub on_toradio-Follow :
      (conn : Conn) (payload : Bytes) → Follow st (on_toradio_ble pb p conn payload)
  unfolding on_toradio_ble handle_toradio
  on_toradio-Follow conn payload = go (proto_decode_toradio pb payload)
    where
      go :
          (decoded : Option ToradioInfo)
          → Follow st (elim decoded [
            | none ↦ record p { tx = (uart_meshtastic_tx p.tx payload).1 }
            | some ti ↦ handle_toradio pb p conn payload ti
          ])
      go none = (w, stays st)
      go (some ti) =
          if-Follow st _ _ ti.has_want_config
            (want_config-Follow p.upstream.state conn ti.want_config_id)
            (if-Follow st _ _ ti.has_heartbeat (w, stays st) (forward-Follow payload))
