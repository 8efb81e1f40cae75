-- ===== src/Proxy/Tests.antt =====
-- The whole proxy with two phones and a small burst.
use meshtastic_ble_proxy.Base.{
  ◌+◌, ◌≡◌, ◌≢◌, refl, some, [], ◌∷◌, ◌++◌, arith, map, length, Bytes, inl, inr, true, false, ok,
}
use meshtastic_ble_proxy.Nanopb.Sample.{sample_tags, sample_nanopb, sample_tags-HasDistinctTags}
use meshtastic_ble_proxy.ProxyProtocol.{ProxyHeader, proxy_header_parse}
use meshtastic_ble_proxy.Proto.{
  proto_encode_config_complete, FromradioInfo, ToradioInfo, proto_decode_toradio,
  proto_encode_heartbeat, encoded,
}
use meshtastic_ble_proxy.ConfigCache.Layout.{mark_ready-IsValid}
use meshtastic_ble_proxy.ConfigCache.Frames.{frames, add}
use meshtastic_ble_proxy.ConfigCache.Segments.{segment}
use meshtastic_ble_proxy.Uart.{uart_meshtastic_tx}
use meshtastic_ble_proxy.Ble.State.{Conn, ProxyConn, notify_fromnum, find_slot}
use meshtastic_ble_proxy.Ble.Sample.{
  first_phone, second_phone, two_phones, two_phones-IsDistinct, second_phone-IsValidSlot,
  first_slot, second_slot,
}
use meshtastic_ble_proxy.Ble.Connections.{taken}
use meshtastic_ble_proxy.Ble.Connections.Slots.{slot_of}
use meshtastic_ble_proxy.Ble.Queue.{ble_gatt_broadcast_fromradio}
use meshtastic_ble_proxy.Ble.Queue.Fifo.{waiting}
use meshtastic_ble_proxy.Ble.Queue.Broadcast.{given}
use meshtastic_ble_proxy.Ble.Reads.Replay.{fresh_reads}
use meshtastic_ble_proxy.Upstream.{upstream_at_boot, fetching, live, keepalive_buf_size}
use meshtastic_ble_proxy.Upstream.Session.{Incoming}
use meshtastic_ble_proxy.Proxy.{
  Proxy, router_dispatch, on_toradio_ble, toradio_write, keepalive_fires,
}
use meshtastic_ble_proxy.Proxy.Routing.{packet-reaches_addressee, packet-reaches_all, burst-IsHeld}
use meshtastic_ble_proxy.Proxy.Phones.{Settled, is_answered, toradio-forwards, want_config-served}
use meshtastic_ble_proxy.Proxy.Stale.{replaced, replaced-IsServed}
use meshtastic_ble_proxy.Ble.Connections.{on_connected, alloc_slot, ble_gatt_start_advertising}
use meshtastic_ble_proxy.Proxy.Serving.{burst_end-serves}
use meshtastic_ble_proxy.Proxy.Keepalive.{routed, keepalive-swallows_one}
use meshtastic_ble_proxy.Proxy.Sample.{
  parked, parked-IsValidBle, lone_phone, one_node, one_node-IsValid, running, parked_phone,
  starting, frame_in, node_frame, closing, closing-IsEnd, waits, waits-IsOnce, parked_slot,
  encodes_six,
}

-- A packet of the proxy's port for the second phone, by its identifier.
abbrev content : Bytes
content = 1 ∷ 65 ∷ 76 ∷ 73 ∷ 67 ∷ 66 ∷ 79 ∷ 66 ∷ 0 ∷ 104 ∷ []

abbrev packet : Bytes
packet = 2 ∷ 1 ∷ content

abbrev packet_info : FromradioInfo
packet_info = record {
  which_variant = 2;
  packet_from = 1;
  packet_to = 2;
  is_decoded = true;
  portnum = 256;
  payload = content;
}

abbrev header : ProxyHeader
header = record {
  src = 65 ∷ 76 ∷ 73 ∷ 67 ∷ [];
  dst = 66 ∷ 79 ∷ 66 ∷ 0 ∷ [];
  content = 104 ∷ [];
  content_len = 1;
}

content-header : proxy_header_parse content ≡ some header
unfolding proxy_header_parse
content-header = refl

-- Only the second phone's identifier is the one that the header names.
bob_alone :
    (other : Conn) (q : ProxyConn)
    → slot_of two_phones.conns other ≡ some q
    → q.proxy_id ≡ header.dst
    → other ≡ 9
unfolding find_slot
bob_alone other q at own = ground arith

packet-reaches_addressee_example :
    let p' = router_dispatch sample_nanopb running packet packet_info in
    (pc' : ProxyConn) × (slot_of p'.ble.conns 9 ≡ some pc')
    × (waiting pc' ≡ waiting second_phone ++ packet ∷ [])
    × (p'.ble.effects ≡ notify_fromnum 9 pc'.fromnum ∷ running.ble.effects)
    × ((other : Conn) → other ≢ 9 → slot_of p'.ble.conns other ≡ slot_of two_phones.conns other)
    × (p'.cache ≡ running.cache)
    × (p'.upstream ≡ running.upstream)
    × (p'.tx ≡ running.tx)
packet-reaches_addressee_example =
    packet-reaches_addressee sample_nanopb running packet packet_info header 9 second_phone refl
      content-header two_phones-IsDistinct (ground arith) second_slot refl (ground arith) bob_alone
      second_phone-IsValidSlot (omega arith) (omega arith)

-- A packet of another port.
abbrev text_info : FromradioInfo
text_info = record packet_info { portnum = 1 }

packet-reaches_all_example :
    let p' = router_dispatch sample_nanopb running packet text_info in
    (p'.ble.conns ≡ map (given packet) two_phones.conns)
    × (p'.cache ≡ running.cache)
    × (p'.upstream ≡ running.upstream)
    × (p'.tx ≡ running.tx)
packet-reaches_all_example =
    packet-reaches_all sample_nanopb running packet text_info refl refl refl two_phones-IsDistinct
      (omega arith)

burst-IsHeld_example :
    let p' = router_dispatch sample_nanopb starting node_frame.payload node_frame.info in
    (p'.ble ≡ starting.ble)
    × (p'.tx ≡ starting.tx)
    × (p'.upstream.state ≡ fetching)
    × (frames p'.cache
        ≡ add (frames starting.cache) (record { bytes = node_frame.payload; variant = 4 }))
burst-IsHeld_example =
    burst-IsHeld sample_nanopb starting node_frame.payload node_frame.info refl one_node-IsValid
      (ground arith) (inl (ground arith))

burst_end-serves_example :
    let p' = router_dispatch sample_nanopb starting closing.payload closing.info in
    let seg = segment sample_tags 6 (frames starting.cache) in
    (pc' : ProxyConn) × (p'.upstream.state ≡ live)
    × (p'.upstream.pending ≡ [])
    × (p'.cache.ready ≡ true)
    × (slot_of p'.ble.conns 7 ≡ some pc')
    × ((fresh_reads sample_tags p'.cache (length seg + 2) pc').0
        ≡ map (λ f. f.bytes) seg ++ (7 ∷ 6 ∷ []) ∷ [] ∷ [])
burst_end-serves_example =
    burst_end-serves sample_nanopb starting closing refl refl one_node-IsValid closing-IsEnd 7
      parked_phone (7 ∷ 6 ∷ []) sample_tags-HasDistinctTags waits-IsOnce waits parked_slot refl
      encodes_six (omega arith)

replaced-IsServed_example :
    let p = record starting { ble = parked } in
    let p' = router_dispatch sample_nanopb (replaced p 7 ok ok) closing.payload closing.info in
    let seg = segment sample_tags 0 (frames p.cache) in
    (pc' : ProxyConn) × (slot_of p'.ble.conns 7 ≡ some pc')
    × ((fresh_reads sample_tags p'.cache (length seg + 2) pc').0
        ≡ map (λ f. f.bytes) seg ++ (7 ∷ 0 ∷ []) ∷ [] ∷ [])
unfolding on_connected alloc_slot ble_gatt_start_advertising find_slot proto_encode_config_complete
replaced-IsServed_example =
    let p = record starting { ble = parked } in
    replaced-IsServed sample_nanopb p closing refl refl one_node-IsValid closing-IsEnd 7 lone_phone
      ok ok (7 ∷ 0 ∷ []) sample_tags-HasDistinctTags waits-IsOnce waits parked-IsValidBle refl refl
      (omega arith)

-- A phone's packet.
toradio-forwards_example :
    Settled sample_nanopb running 7
      (is_answered (proto_decode_toradio sample_nanopb (1 ∷ 9 ∷ [])))
      (1 ∷ 9 ∷ [])
      (on_toradio_ble sample_nanopb running 7 (1 ∷ 9 ∷ []))
toradio-forwards_example = toradio-forwards sample_nanopb running 7 (1 ∷ 9 ∷ [])

-- A want_config with the nonce 6.
abbrev ask : Bytes
ask = 3 ∷ 6 ∷ []

abbrev ask_info : ToradioInfo
ask_info = record {
  has_want_config = true;
  want_config_id = 6;
  has_heartbeat = false;
  is_packet = false;
  portnum = 0;
  payload = [];
}

ask-decoded : proto_decode_toradio sample_nanopb ask ≡ some ask_info
unfolding proto_decode_toradio
ask-decoded = ground arith

want_config-served_example :
    let (answer, p') = toradio_write sample_nanopb running 7 ask 0 in
    let seg = segment sample_tags 6 (frames running.cache) in
    (pc' : ProxyConn) × (answer ≡ taken (length ask))
    × (slot_of p'.ble.conns 7 ≡ some pc')
    × ((fresh_reads sample_tags p'.cache (length seg + 2) pc').0
        ≡ map (λ f. f.bytes) seg ++ (7 ∷ 6 ∷ []) ∷ [] ∷ [])
    × ((other : Conn) → other ≢ 7 → slot_of p'.ble.conns other ≡ slot_of running.ble.conns other)
want_config-served_example =
    want_config-served sample_nanopb running 7 ask ask_info first_phone refl ask-decoded refl
      first_slot (7 ∷ 6 ∷ []) sample_tags-HasDistinctTags
      (mark_ready-IsValid sample_tags one_node one_node-IsValid) (inr refl) refl encodes_six
      (omega arith)

-- With an empty transmit queue.
abbrev quiet : Proxy
quiet = record running {
  upstream = record upstream_at_boot { state = live; keepalive_nonce = 2 };
  tx = record { msgq = []; in_progress = false; frame_buf = []; submitted = false };
}

abbrev status : Incoming
status = frame_in (11 ∷ 0 ∷ []) 11

encodes_two : proto_encode_heartbeat sample_nanopb 2 keepalive_buf_size ≡ encoded (7 ∷ 2 ∷ [])
unfolding proto_encode_heartbeat
encodes_two = refl

sends_two : (uart_meshtastic_tx quiet.tx (7 ∷ 2 ∷ [])).0 ≡ ok
unfolding uart_meshtastic_tx
sends_two = refl

-- A packet for all comes before the reply.
keepalive-swallows_one_example :
    let text : Incoming = record { payload = packet; info = text_info } in
    let before = routed sample_nanopb (keepalive_fires sample_nanopb quiet) (text ∷ []) in
    ((routed sample_nanopb before (status ∷ [])).ble ≡ before.ble)
    × ((routed sample_nanopb before (status ∷ status ∷ [])).ble
        ≡ (ble_gatt_broadcast_fromradio before.ble status.payload).1)
keepalive-swallows_one_example =
    keepalive-swallows_one sample_nanopb quiet (7 ∷ 2 ∷ [])
      (record { payload = packet; info = text_info } ∷ []) status status sample_tags-HasDistinctTags
      (λ e. ground arith) encodes_two sends_two (ground arith, tt) refl refl
