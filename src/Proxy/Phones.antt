-- ===== src/Proxy/Phones.antt =====
-- What a phone's write does: src/main.c's `on_toradio_ble` behind the write handler of
-- src/ble_gatt.c.
use mathlib.Core.Option
use meshtastic_ble_proxy.Base.{
  modify, ◌⊎◌, ℕ, ◌+◌, ◌≤◌, ◌≡◌, ◌≢◌, refl, ap, ◌∙◌, Bool, true, false, ◌||◌, Option, none, some,
  List, [], ◌∷◌, ◌++◌, arith, length, map, ◌==◌, leb, if◌then◌else◌, Bytes, Option-cases, inl, inr,
}
use meshtastic_ble_proxy.Nanopb.{Nanopb, HasDistinctTags}
use meshtastic_ble_proxy.Proto.{
  ToradioInfo, proto_decode_toradio, proto_encode_config_complete, encoded,
}
use meshtastic_ble_proxy.ConfigCache.Layout.{IsValid}
use meshtastic_ble_proxy.ConfigCache.Frames.{frames}
use meshtastic_ble_proxy.ConfigCache.Segments.{segment}
use meshtastic_ble_proxy.Uart.{uart_meshtastic_tx}
use meshtastic_ble_proxy.Ble.State.{Conn, ProxyConn, pending, cc_frame_size, find_slot}
use meshtastic_ble_proxy.Ble.Connections.{taken}
use meshtastic_ble_proxy.Ble.Connections.Slots.{slot_of, slot_of-modify_self, slot_of-modify_ne}
use meshtastic_ble_proxy.Ble.Reads.Replay.{fresh_reads}
use meshtastic_ble_proxy.Ble.Burst.{ble_gatt_replay_cached_burst, park_slot}
use meshtastic_ble_proxy.Ble.Burst.Arming.{armed, replay-slot, replay-slot_ne, armed-serves_segment}
use meshtastic_ble_proxy.Upstream.{
  Upstream, UpstreamState, boot, fetching, cache_ready, live, upstream_keepalive_reschedule,
  upstream_on_pending_phone, is_pending, max_pending,
}
use meshtastic_ble_proxy.Proxy.{
  Proxy, on_toradio_ble, toradio_write, handle_toradio, serve_want_config, forward,
  ble_gatt_park_pending,
}

-- The proxy answers want_config and heartbeats itself.
abbrev pub is_answered : Option ToradioInfo → Bool
is_answered none = false
is_answered (some ti) = ti.has_want_config || ti.has_heartbeat

module _ (pb : Nanopb) (p : Proxy) (conn : Conn) where
  forward-tx :
      (payload : Bytes)
      → let p' = forward pb p payload in
        (p'.tx ≡ (uart_meshtastic_tx p.tx payload).1)
        × (p'.ble ≡ p.ble)
        × (p'.cache ≡ p.cache)
        × (p'.upstream.state ≡ p.upstream.state)
        × (p'.upstream.pending ≡ p.upstream.pending)
  unfolding forward upstream_keepalive_reschedule
  forward-tx payload = ground arith

  want_config-tx :
      (st : UpstreamState) (nonce : ℕ)
      → let p' = serve_want_config pb st p conn nonce in
        (p'.tx ≡ p.tx) × (p'.cache ≡ p.cache) × (p'.upstream.state ≡ p.upstream.state)
  unfolding serve_want_config ble_gatt_park_pending upstream_on_pending_phone
  want_config-tx st nonce = ground arith

  -- What became of a write: answered here, or handed to the node's transmit queue as it is.
  abbrev pub Settled : Bool → Bytes → Proxy → Type 0
  Settled own payload p' =
      (p'.cache ≡ p.cache)
      × (p'.upstream.state ≡ p.upstream.state)
      × (((own ≡ true) × (p'.tx ≡ p.tx))
          ⊎ ((own ≡ false)
              × (p'.tx ≡ (uart_meshtastic_tx p.tx payload).1)
              × (p'.ble ≡ p.ble)
              × (p'.upstream.pending ≡ p.upstream.pending)))

  handled :
      (ti : ToradioInfo) (payload : Bytes)
      → Settled
          (ti.has_want_config || ti.has_heartbeat)
          payload
          (handle_toradio pb p conn payload ti)
  unfolding handle_toradio
  handled ti payload =
      ground (arith, forward-tx payload, want_config-tx p.upstream.state ti.want_config_id)

  -- What a phone writes is offered to the node's transmit queue byte for byte, whether it can be
  -- decoded or not, and then changes no phone's slot and no waiting phone; a want_config and a
  -- heartbeat never reach that queue. No write changes the cache or the session's state.
  pub toradio-forwards :
      (payload : Bytes)
      → Settled
          (is_answered (proto_decode_toradio pb payload))
          payload
          (on_toradio_ble pb p conn payload)
  unfolding on_toradio_ble
  toradio-forwards payload = elim (Option-cases (proto_decode_toradio pb payload)) [
    | inl e ↦ rw (on_toradio_ble, e) (refl, refl, inr (refl, refl, refl, refl))
    | inr (ti, e) ↦ rw (on_toradio_ble, e, is_answered) (handled ti payload)
  ]

-- The list of those that wait after a connection asks.
abbrev pub listed_with : Conn → List Conn → List Conn
listed_with conn cs =
    if is_pending conn cs || leb max_pending (length cs) then cs else cs ++ conn ∷ []

-- The proxy with the LED flag that every accepted write sets.
abbrev lit : Proxy → Proxy
lit p = record p { ble = record (p.ble) { led_toradio_active = true } }

module _ (pb : Nanopb) (p : Proxy) (conn : Conn) (payload : Bytes) (ti : ToradioInfo)
    (pc : ProxyConn) (handler : p.ble.toradio_handler ≡ true)
    (decoded : proto_decode_toradio pb payload ≡ some ti) (asks : ti.has_want_config ≡ true)
    (at : slot_of p.ble.conns conn ≡ some pc) where
  write_want_config : toradio_write pb p conn payload 0 ≡ (
    taken (length payload),
    serve_want_config pb p.upstream.state (lit p) conn ti.want_config_id,
  )
  unfolding toradio_write on_toradio_ble handle_toradio
  write_want_config = ground arith

  -- With a registered handler and distinct tags, a want_config that a phone with a slot writes while
  -- the session is CACHE_READY or LIVE over a well-formed cache is served from the cache, by the
  -- nonce that it carries, or where that is 0 by the one that the slot kept from before, if the
  -- closing frame of that nonce encodes into at most 16 bytes: the phone's reads from there on give
  -- the frames of the segment that the nonce asks for, in the order of the burst, then the closing
  -- frame with the nonce, then nothing. Other phones' slots are as before.
  pub want_config-served :
      (cc_bytes : Bytes)
      → HasDistinctTags pb.tags
      → IsValid pb.tags p.cache
      → (p.upstream.state ≡ cache_ready) ⊎ (p.upstream.state ≡ live)
      → length pc.cc_frame ≡ cc_frame_size
      → let nonce = if ti.want_config_id == 0 then pc.nonce else ti.want_config_id in
        proto_encode_config_complete pb nonce cc_frame_size ≡ encoded cc_bytes
        → length cc_bytes ≤ cc_frame_size
        → let (answer, p') = toradio_write pb p conn payload 0 in
          let seg = segment pb.tags nonce (frames p.cache) in
          (pc' : ProxyConn) × (answer ≡ taken (length payload))
          × (slot_of p'.ble.conns conn ≡ some pc')
          × ((fresh_reads pb.tags p'.cache (length seg + 2) pc').0
              ≡ map (λ f. f.bytes) seg ++ cc_bytes ∷ [] ∷ [])
          × ((other : Conn) → other ≢ conn → slot_of p'.ble.conns other ≡ slot_of p.ble.conns other)
  unfolding serve_want_config
  want_config-served cc_bytes d v st size enc le =
      let b = (lit p).ble in
      let nonce = ti.want_config_id in
      let chosen = if nonce == 0 then pc.nonce else nonce in
      let e : toradio_write pb p conn payload 0 ≡ (
        taken (length payload),
        record (lit p) { ble = ble_gatt_replay_cached_burst pb b conn nonce },
      ) =
        write_want_config ∙ ground arith in
      rw e (
        armed cc_bytes nonce pc,
        refl,
        replay-slot pb b conn nonce pc cc_bytes at enc,
        armed-serves_segment pb p.cache nonce chosen pc cc_bytes d v refl size le,
        replay-slot_ne pb b conn nonce pc cc_bytes at enc,
      )

  -- With a registered handler, a want_config that a phone with a slot writes while the session is
  -- in BOOT or FETCHING and the cache is not ready parks the phone with its nonce, and the phone
  -- is put at the end of the list of those that wait, if it is not there and fewer than six are. Other
  -- phones' slots are as before, and so are the cache and the rest of the session.
  pub want_config-parked :
      (p.upstream.state ≡ boot) ⊎ (p.upstream.state ≡ fetching)
      → p.cache.ready ≡ false
      → let (answer, p') = toradio_write pb p conn payload 0 in
        (answer ≡ taken (length payload))
        × (slot_of p'.ble.conns conn
            ≡ some (record pc { state = pending; nonce = ti.want_config_id }))
        × (p'.upstream ≡ record (p.upstream) { pending = listed_with conn p.upstream.pending })
        × (p'.cache ≡ p.cache)
        × ((other : Conn) → other ≢ conn → slot_of p'.ble.conns other ≡ slot_of p.ble.conns other)
  unfolding serve_want_config ble_gatt_park_pending park_slot upstream_on_pending_phone
  want_config-parked st unready = elim (Option-cases (find_slot p.ble.conns conn)) [
    | inl e ↦ absurd (ground arith)
    | inr (i, e) ↦
        let parks : ProxyConn → ProxyConn =
          λ q. record q { state = pending; nonce = ti.want_config_id } in
        let e' : toradio_write pb p conn payload 0 ≡ (
          taken (length payload),
          record p {
            ble = record (lit p).ble { conns = modify p.ble.conns i parks };
            upstream = waits;
          },
        ) =
          write_want_config ∙ ground arith in
        rw e' (
          refl,
          slot_of-modify_self p.ble.conns conn i parks e (λ q. refl) ∙ ap (Option.map parks) at,
          refl,
          refl,
          slot_of-modify_ne p.ble.conns conn i parks e (λ q. refl),
        )
  ]
    where
      waits : Upstream
      waits = record (p.upstream) { pending = listed_with conn p.upstream.pending }
