-- ===== src/Proxy/Parked/Tests.antt =====
-- One phone that connects during the fetch and asks for the configuration: src/main.c,
-- src/ble_gatt.c and src/upstream_session.c.
use meshtastic_ble_proxy.Base.{
  ◌+◌, ◌<◌, ◌≤◌, ◌⊎◌, ◌≡◌, ◌≢◌, refl, true, false, ok, some, [], ◌∷◌, ◌++◌, All, map, length, arith,
}
use meshtastic_ble_proxy.Nanopb.Sample.{sample_nanopb, sample_tags, sample_tags-HasDistinctTags}
use meshtastic_ble_proxy.Proto.{proto_decode_toradio, ToradioInfo}
use meshtastic_ble_proxy.ConfigCache.{cache_begin, cache_at_boot}
use meshtastic_ble_proxy.ConfigCache.Layout.{at_boot-IsValid}
use meshtastic_ble_proxy.ConfigCache.Frames.{frames}
use meshtastic_ble_proxy.ConfigCache.Segments.{segment}
use meshtastic_ble_proxy.Uart.{uart_meshtastic_tx, tx_at_boot}
use meshtastic_ble_proxy.Ble.State.{ProxyConn, pending, find_slot}
use meshtastic_ble_proxy.Ble.Start.{InitAnswers, ble_gatt_init}
use meshtastic_ble_proxy.Ble.Connections.{on_connected, alloc_slot, ble_gatt_start_advertising}
use meshtastic_ble_proxy.Ble.Connections.Slots.{slot_of}
use meshtastic_ble_proxy.Ble.Burst.{park_slot}
use meshtastic_ble_proxy.Ble.Reads.Replay.{fresh_reads}
use meshtastic_ble_proxy.Upstream.{
  live, fetching, upstream_set_serve_cb, upstream_session_start, upstream_on_pending_phone,
  upstream_at_boot, is_pending, max_pending,
}
use meshtastic_ble_proxy.Upstream.Waiting.{IsOnce}
use meshtastic_ble_proxy.Ble.Sample.{second_phone}
use meshtastic_ble_proxy.Proxy.Parked.Full.{want_config-served_or_left}
use meshtastic_ble_proxy.Proxy.{
  Proxy, proxy_at_boot, session_starts, toradio_write, router_dispatch, on_toradio_ble,
}
use meshtastic_ble_proxy.Proxy.Sample.{
  attr_read, closing, closing-IsEnd, lone_phone, encodes_six, starting,
}
use meshtastic_ble_proxy.Proxy.Soundness.Steps.{
  init, set_callback, start, connect, write, locally, IsReachable, boots, next,
}
use meshtastic_ble_proxy.Proxy.Parked.Served.{
  Onward, stay, on, starts, is_start, dispatch-serves_parked,
}

abbrev fine : InitAnswers
fine = record {
  led_fromradio_ready = true;
  led_toradio_ready = true;
  led_fromradio_configure = ok;
  led_toradio_configure = ok;
}

abbrev set_up : Proxy
set_up = record proxy_at_boot { ble = (ble_gatt_init fine proxy_at_boot.ble).1 }

abbrev wired : Proxy
wired = record set_up { upstream = upstream_set_serve_cb set_up.upstream }

abbrev started : Proxy
started = session_starts sample_nanopb 5 wired

abbrev joined : Proxy
joined = record started { ble = on_connected started.ble 7 false ok }

abbrev asked : Proxy
asked = (toradio_write sample_nanopb joined 7 (3 ∷ 6 ∷ []) 0).1

started-IsReachable : IsReachable sample_nanopb attr_read started
started-IsReachable =
    next wired started
      (next set_up wired
        (next proxy_at_boot set_up boots (locally proxy_at_boot set_up (init proxy_at_boot fine)))
        (locally set_up wired (set_callback set_up)))
      (locally wired started (start wired 5))

none_parked : All (λ pc. pc.state ≢ pending) started.ble.conns
unfolding session_starts ble_gatt_init proxy_at_boot
none_parked = ground arith

asked-Onward : Onward sample_nanopb attr_read started asked
unfolding starts is_start session_starts ble_gatt_init proxy_at_boot find_slot
asked-Onward =
    on joined asked
      (on started joined stay (locally started joined (connect started 7 false ok refl)) refl)
      (locally joined asked (write joined 7 (3 ∷ 6 ∷ []) 0)) refl

asked_slot : slot_of asked.ble.conns 7 ≡ some lone_phone
unfolding session_starts ble_gatt_init proxy_at_boot find_slot on_connected alloc_slot
    ble_gatt_start_advertising toradio_write on_toradio_ble proto_decode_toradio park_slot
    upstream_set_serve_cb upstream_session_start upstream_on_pending_phone upstream_at_boot
    is_pending uart_meshtastic_tx cache_begin tx_at_boot
asked_slot = refl

asked_fetches :
    (asked.upstream.state ≡ fetching)
    × (asked.upstream.serve_cb ≡ true)
    × (asked.upstream.nonce ≡ 5)
    × (length asked.upstream.pending ≡ 1)
unfolding session_starts ble_gatt_init proxy_at_boot find_slot on_connected alloc_slot
    ble_gatt_start_advertising toradio_write on_toradio_ble proto_decode_toradio park_slot
    upstream_set_serve_cb upstream_session_start upstream_on_pending_phone upstream_at_boot
    is_pending uart_meshtastic_tx cache_begin tx_at_boot
asked_fetches = (refl, refl, refl, refl)

dispatch-serves_parked_example :
    let q' = router_dispatch sample_nanopb asked closing.payload closing.info in
    let seg = segment sample_tags 6 (frames asked.cache) in
    (pc' : ProxyConn) × (q'.upstream.state ≡ live)
    × (q'.upstream.pending ≡ [])
    × (q'.cache.ready ≡ true)
    × (slot_of q'.ble.conns 7 ≡ some pc')
    × ((fresh_reads sample_tags q'.cache (length seg + 2) pc').0
        ≡ map (λ f. f.bytes) seg ++ (7 ∷ 6 ∷ []) ∷ [] ∷ [])
dispatch-serves_parked_example =
    dispatch-serves_parked sample_nanopb attr_read started asked started-IsReachable none_parked
      asked-Onward asked_fetches.0 asked_fetches.1 closing (rw (asked_fetches.2) closing-IsEnd)
      sample_tags-HasDistinctTags 7 lone_phone (7 ∷ 6 ∷ []) asked_slot refl
      (omega (arith, asked_fetches.3)) encodes_six (omega arith)

-- The list is full of phones that have gone, and the second phone asks with the nonce 6.
abbrev crowded : Proxy
crowded = record starting {
  cache = cache_at_boot;
  upstream = record (starting.upstream) { pending = 1 ∷ 2 ∷ 3 ∷ 4 ∷ 5 ∷ 6 ∷ [] };
}

abbrev ask_info : ToradioInfo
ask_info = record {
  has_want_config = true;
  want_config_id = 6;
  has_heartbeat = false;
  is_packet = false;
  portnum = 0;
  payload = [];
}

ask-decoded : proto_decode_toradio sample_nanopb (3 ∷ 6 ∷ []) ≡ some ask_info
unfolding proto_decode_toradio
ask-decoded = ground arith

newcomer_slot : slot_of crowded.ble.conns 9 ≡ some second_phone
unfolding find_slot
newcomer_slot = refl

crowd-IsOnce : IsOnce crowded.upstream.pending
unfolding is_pending
crowd-IsOnce = (refl, (refl, (refl, (refl, (refl, (refl, tt))))))

want_config-served_or_left_example :
    let p' =
      router_dispatch sample_nanopb
        (toradio_write sample_nanopb crowded 9 (3 ∷ 6 ∷ []) 0).1
        closing.payload
        closing.info in
    let seg = segment sample_tags 6 (frames crowded.cache) in
    (pc' : ProxyConn) × (p'.upstream.state ≡ live)
    × (p'.upstream.pending ≡ [])
    × (slot_of p'.ble.conns 9 ≡ some pc')
    × ((((is_pending 9 crowded.upstream.pending ≡ true)
            ⊎ (length crowded.upstream.pending < max_pending))
          × ((fresh_reads sample_tags p'.cache (length seg + 2) pc').0
              ≡ map (λ f. f.bytes) seg ++ (7 ∷ 6 ∷ []) ∷ [] ∷ []))
        ⊎ ((is_pending 9 crowded.upstream.pending ≡ false)
            × (max_pending ≤ length crowded.upstream.pending)
            × (pc' ≡ record second_phone { state = pending; nonce = 6 })))
unfolding cache_at_boot
want_config-served_or_left_example =
    want_config-served_or_left sample_nanopb crowded 9 (3 ∷ 6 ∷ []) ask_info second_phone refl
      ask-decoded refl newcomer_slot closing (7 ∷ 6 ∷ []) refl refl refl
      (at_boot-IsValid sample_tags) crowd-IsOnce closing-IsEnd sample_tags-HasDistinctTags refl
      encodes_six (omega arith)
