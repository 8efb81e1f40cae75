-- ===== src/Proxy/Parked/Phones.antt =====
-- Parked phones and the writes of phones, by src/main.c.
use meshtastic_ble_proxy.Base.{
  ℕ, ◌≡◌, ◌==◌, Bool, true, false, not, List, [], ◌∷◌, ◌++◌, arith, if◌then◌else◌, Option, none,
  some, Bytes, Rc, ok, err, length, All, All-modify, modify, inl, inr, ◌⊎◌, Option-cases, ==_refl,
}
use meshtastic_ble_proxy.Nanopb.{Nanopb}
use meshtastic_ble_proxy.Proto.{ToradioInfo, proto_decode_toradio}
use meshtastic_ble_proxy.ConfigCache.{Cache}
use meshtastic_ble_proxy.Uart.{Tx, uart_meshtastic_tx}
use meshtastic_ble_proxy.Ble.State.{Conn, Ble, ProxyConn, pending, find_slot}
use meshtastic_ble_proxy.Ble.Connections.{WriteResult, taken, invalid_offset}
use meshtastic_ble_proxy.Ble.Connections.Slots.{find_slot-some}
use meshtastic_ble_proxy.Ble.Burst.{park_slot}
use meshtastic_ble_proxy.Ble.Burst.Parked.{replay}
use meshtastic_ble_proxy.Ble.Table.Parked.{replay-All, reply-All}
use meshtastic_ble_proxy.Upstream.{
  Upstream, UpstreamState, boot, fetching, cache_ready, live, upstream_on_pending_phone,
  upstream_keepalive_reschedule,
}
use meshtastic_ble_proxy.Upstream.Waiting.{is_pending-snoc}
use meshtastic_ble_proxy.Proxy.{
  Proxy, ble_gatt_park_pending, serve_want_config, forward, handle_toradio, on_toradio_ble,
  toradio_write,
}
use meshtastic_ble_proxy.Proxy.Parked.{
  IsListed, IsListed-snoc, Waits, Waits-IsStable, Remembers, if-Remembers,
}

-- A call for an unpublished cache leaves the connection listed, those that were listed too, and no
-- phone served.
on_pending-IsListed :
    {S : Type 0} (serve : ℕ → ℕ → S → S) (cache : Cache) (u : Upstream) (conn : Conn) (s : S)
    → cache.ready ≡ false
    → let (u', s') = upstream_on_pending_phone serve cache u conn s in
      IsListed conn u'.pending
      × ((u'.pending ≡ u.pending) ⊎ (u'.pending ≡ u.pending ++ conn ∷ []))
      × (s' ≡ s)
unfolding upstream_on_pending_phone
on_pending-IsListed serve cache u conn s r =
    (ground (arith, is_pending-snoc conn u.pending conn, ==_refl conn), ground arith, ground arith)

grown :
    (conn : Conn) (cs cs' : List ℕ) (pc : ProxyConn)
    → (cs' ≡ cs) ⊎ (cs' ≡ cs ++ conn ∷ [])
    → Waits cs pc
    → Waits cs' pc
grown conn cs cs' pc (inl e) w = rw e w
grown conn cs cs' pc (inr e) w = rw e (λ c at st. IsListed-snoc c conn cs (w c at st))

All-grown :
    (conn : Conn) (cs cs' : List ℕ) (conns : List ProxyConn)
    → (cs' ≡ cs) ⊎ (cs' ≡ cs ++ conn ∷ [])
    → All (Waits cs) conns
    → All (Waits cs') conns
All-grown conn cs cs' [] e h = tt
All-grown conn cs cs' (pc ∷ pcs) e h = (grown conn cs cs' pc e h.0, All-grown conn cs cs' pcs e h.1)

module _ (pb : Nanopb) (p : Proxy) (w : Remembers p) where
  park-Remembers : (conn : Conn) (nonce : ℕ) → Remembers (ble_gatt_park_pending pb p conn nonce)
  unfolding ble_gatt_park_pending park_slot
  park-Remembers conn nonce = elim (Option-cases (find_slot p.ble.conns conn)) [
    | inl e ↦ rw (ble_gatt_park_pending, park_slot, e) w
    | inr (i, e) ↦
        let (pc, at, held) = find_slot-some p.ble.conns conn i e in
        let f : ProxyConn → ProxyConn = λ q. record q { state = pending; nonce = nonce } in
        let b : Ble = record (p.ble) { conns = modify p.ble.conns i f } in
        rw (ble_gatt_park_pending, park_slot, e)
          (λ r.
            let (listed, list, still) =
              on_pending-IsListed (replay pb) p.cache p.upstream conn b r in
            let u = (upstream_on_pending_phone (replay pb) p.cache p.upstream conn b).0 in
            rw still (
              All-modify (Waits u.pending) p.ble.conns i f
                (λ q here _ c at_c st.
                  let same : q ≡ pc = ground arith in
                  let ours : c ≡ conn = ground arith in rw ours listed)
                (All-grown conn p.upstream.pending u.pending p.ble.conns list (w r))))
  ]

  want_config-Remembers :
      (phase : UpstreamState) (conn : Conn) (nonce : ℕ)
      → Remembers (serve_want_config pb phase p conn nonce)
  unfolding serve_want_config
  want_config-Remembers boot conn nonce = park-Remembers conn nonce
  want_config-Remembers fetching conn nonce = park-Remembers conn nonce
  want_config-Remembers cache_ready conn nonce = λ r.
      replay-All (Waits p.upstream.pending) (Waits-IsStable p.upstream.pending) p.ble (w r) pb conn
        nonce
  want_config-Remembers live conn nonce = λ r.
      replay-All (Waits p.upstream.pending) (Waits-IsStable p.upstream.pending) p.ble (w r) pb conn
        nonce

  forward-Remembers : (payload : Bytes) → Remembers (forward pb p payload)
  unfolding forward upstream_keepalive_reschedule
  forward-Remembers payload = go (uart_meshtastic_tx p.tx payload).0 p.upstream.keepalive_armed
    where
      tx' : Tx
      tx' = (uart_meshtastic_tx p.tx payload).1

      go :
          (rc : Rc) (armed : Bool)
          → Remembers (elim rc [
            | ok ↦ record p {
              tx = tx';
              upstream =
                  if armed then record (p.upstream) { keepalive_scheduled = true } else p.upstream;
            }
            | err e ↦ record p { tx = tx' }
          ])
      go ok true = w
      go ok false = w
      go (err e) armed = w

  on_toradio-Remembers :
      (conn : Conn) (payload : Bytes) → Remembers (on_toradio_ble pb p conn payload)
  unfolding on_toradio_ble handle_toradio
  on_toradio-Remembers conn payload = go (proto_decode_toradio pb payload)
    where
      go :
          (decoded : Option ToradioInfo)
          → Remembers (elim decoded [
            | none ↦ record p { tx = (uart_meshtastic_tx p.tx payload).1 }
            | some ti ↦ handle_toradio pb p conn payload ti
          ])
      go none = w
      go (some ti) =
          if-Remembers _ _ ti.has_want_config
            (want_config-Remembers p.upstream.state conn ti.want_config_id)
            (if-Remembers _ _ ti.has_heartbeat
              (λ r.
                reply-All (Waits p.upstream.pending) (Waits-IsStable p.upstream.pending) pb p.ble
                  conn (w r))
              (forward-Remembers payload))

pub write-Remembers :
    (pb : Nanopb) (p : Proxy) (conn : Conn) (buf : Bytes) (offset : ℕ)
    → Remembers p
    → Remembers (toradio_write pb p conn buf offset).1
unfolding toradio_write
write-Remembers pb p conn buf offset w = go (not (offset == 0))
  where
    lit : Proxy
    lit = record p { ble = record (p.ble) { led_toradio_active = true } }

    go :
        (bad : Bool)
        → Remembers (
            let r : WriteResult × Proxy = if bad then (invalid_offset, p) else (
              taken (length buf),
              if p.ble.toradio_handler then on_toradio_ble pb lit conn buf else lit,
            ) in
            r.1)
    go true = w
    go false = if-Remembers _ _ p.ble.toradio_handler (on_toradio-Remembers pb lit w conn buf) w
