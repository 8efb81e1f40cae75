-- ===== src/Firmware/Serial.antt =====
-- From the bytes on the serial line to what the phones read: the driver's events and the receive
-- work item of src/uart_meshtastic.c, the callback of src/main.c, and all behind it.
use meshtastic_ble_proxy.Base.{
  ◌+◌, ◌≤◌, ◌≡◌, refl, sym, ap, ◌∙◌, true, some, List, [], ◌∷◌, ◌++◌, map, Bytes, length, All,
}
use meshtastic_ble_proxy.Nanopb.{Nanopb}
use meshtastic_ble_proxy.Uart.Receive.{IsIdle, Chunk, wire, IsChunk}
use meshtastic_ble_proxy.Uart.Driver.{Port, RingBufPut, IsRingBufPut, uart_cb, rx_work}
use meshtastic_ble_proxy.Uart.Driver.Delivery.{
  RxEvent, RxLog, event, run, AllRx, Fits, rx_events, rx_events-any_tx, uart_cb-rx, line-delivers,
}
use meshtastic_ble_proxy.Proxy.{Proxy, on_fromradio_uart, on_frames}
use meshtastic_ble_proxy.Nanopb.{HasDistinctTags}
use meshtastic_ble_proxy.Proto.{proto_encode_config_complete, encoded}
use meshtastic_ble_proxy.ConfigCache.Layout.{IsValid}
use meshtastic_ble_proxy.ConfigCache.Frames.{frames}
use meshtastic_ble_proxy.ConfigCache.Segments.{segment}
use meshtastic_ble_proxy.Ble.State.{Conn, ProxyConn, cc_frame_size}
use meshtastic_ble_proxy.Ble.Connections.Slots.{slot_of}
use meshtastic_ble_proxy.Ble.Reads.Replay.{fresh_reads}
use meshtastic_ble_proxy.Upstream.{fetching, live, is_pending}
use meshtastic_ble_proxy.Upstream.Waiting.{IsOnce}
use meshtastic_ble_proxy.Upstream.Session.{Incoming, cached}
use meshtastic_ble_proxy.Proxy.Bursts.{IsBurstFrame, IsClosing, burst-serves}
use meshtastic_ble_proxy.Firmware.{Firmware, receives}

module _ (pb : Nanopb) (ring_buf_put : RingBufPut) where
  -- The driver's events and the runs of `rx_work`, over the firmware. Which DMA buffers the driver
  -- holds is left aside.
  pub serial_events : Firmware → List RxEvent → Firmware
  serial_events f [] = f
  serial_events f (run ∷ es) = serial_events (receives pb f) es
  serial_events f (event e ∷ es) =
      let (call, port, tx) = uart_cb ring_buf_put f.port f.proxy.tx e in
      serial_events (record f { port = port; proxy = record (f.proxy) { tx = tx } }) es

  on_frames-append :
      (p : Proxy) (fs gs : List Bytes)
      → on_frames pb p (fs ++ gs) ≡ on_frames pb (on_frames pb p fs) gs
  unfolding on_frames
  on_frames-append p [] gs = refl
  on_frames-append p (f ∷ fs) gs = on_frames-append (on_fromradio_uart pb p f) fs gs

  -- The proxy is given the frames that the receive path hands on, one after the other.
  serial_events-on_frames :
      (f : Firmware) (es : List RxEvent)
      → AllRx es
      → let (port, tx, log) = rx_events ring_buf_put f.port f.proxy.tx es in
        (serial_events f es).proxy ≡ on_frames pb f.proxy log.frames
  unfolding serial_events on_frames rx_events receives
  serial_events-on_frames f [] h = refl
  serial_events-on_frames f (run ∷ es) h =
      let (port, frames) = rx_work f.port in
      let f' = receives pb f in
      let later = λ (l : RxLog). on_frames pb f'.proxy l.frames in
      let log = (rx_events ring_buf_put port f.proxy.tx es).2 in
      serial_events-on_frames f' es h
      ∙ ap later (rx_events-any_tx ring_buf_put port f'.proxy.tx f.proxy.tx es).1
      ∙ sym (on_frames-append f.proxy frames log.frames)
  serial_events-on_frames f (event e ∷ es) h =
      let (call, port, tx) = uart_cb ring_buf_put f.port f.proxy.tx e in
      let f' : Firmware = record f { port = port; proxy = record (f.proxy) { tx = tx } } in
      let log = (rx_events ring_buf_put port tx es).2 in
      serial_events-on_frames f' es (h.1)
      ∙ ap (λ t. on_frames pb (record (f.proxy) { tx = t }) log.frames)
          (uart_cb-rx ring_buf_put f.port f.proxy.tx e (h.0))

  -- The receiver between frames, with nothing to work off and its callback set.
  pub record IsListening (port : Port) : Type 0 where
    pub set : port.fromradio_cb ≡ true
    pub worked_off : port.ring ≡ []
    pub idle : IsIdle port.sm

  -- However the driver cuts the bytes of the line into events, the proxy is given the payloads of the
  -- frames on it, in order, and nothing else.
  serial-delivers :
      IsRingBufPut ring_buf_put
      → (f : Firmware) (es : List RxEvent) (cs : List Chunk) → IsListening f.port
      → All IsChunk cs
      → AllRx es
      → Fits ring_buf_put f.port f.proxy.tx es
      → (rx_events ring_buf_put f.port f.proxy.tx es).2.arrived ≡ wire cs
      → (rx_events ring_buf_put f.port f.proxy.tx es).0.ring ≡ []
      → (serial_events f es).proxy ≡ on_frames pb f.proxy (map (λ c. c.payload) cs)
  serial-delivers law f es cs w sound rx fits all_came off =
      serial_events-on_frames f es rx
      ∙ ap (on_frames pb f.proxy)
          (line-delivers ring_buf_put law f.port f.proxy.tx es cs w.set w.worked_off w.idle sound
            fits all_came off).0

  -- The session while it waits for its burst.
  pub record IsAwaiting (p : Proxy) : Type 0 where
    pub state : p.upstream.state ≡ fetching
    pub serve_cb : p.upstream.serve_cb ≡ true
    pub valid : IsValid pb.tags p.cache
    pub once : IsOnce p.upstream.pending

  -- From the node's bytes to a phone's reads. The receiver listens and the session awaits its burst.
  -- The line brings the burst's frames and the closing frame of the session's nonce, of 1 to 512
  -- bytes each and with noise free of the first magic byte between them, cut into the driver's
  -- events in any way in which each event's bytes fit in the ring buffer as it stands then, with the
  -- work item run at any times, at last when the last bytes have come. Then the session is live, the
  -- cache ready with the frames of the burst that had room, no phone waits any longer, and a phone
  -- that waited is given by its reads the cached frames of the segment that its nonce asks for, in
  -- the order of the burst, then the closing frame with its own nonce, then nothing. The burst's
  -- frames decode, are no live packets and do not end it; the tags are distinct, and the phone's
  -- closing frame encodes into at most 16 bytes.
  pub wire-serves :
      IsRingBufPut ring_buf_put
      → (f : Firmware) (es : List RxEvent) (cs : List Chunk)
      → (burst : List Incoming) (closing : Incoming)
      → (conn : Conn) (pc : ProxyConn) (cc_bytes : Bytes) → IsListening f.port
      → IsAwaiting f.proxy
      → All IsChunk cs
      → AllRx es
      → Fits ring_buf_put f.port f.proxy.tx es
      → (rx_events ring_buf_put f.port f.proxy.tx es).2.arrived ≡ wire cs
      → (rx_events ring_buf_put f.port f.proxy.tx es).0.ring ≡ []
      → map (λ c. c.payload) cs ≡ map (λ g. g.payload) (burst ++ closing ∷ [])
      → All (IsBurstFrame pb f.proxy.upstream.nonce) burst
      → IsClosing pb f.proxy.upstream.nonce closing
      → HasDistinctTags pb.tags
      → is_pending conn f.proxy.upstream.pending ≡ true
      → slot_of f.proxy.ble.conns conn ≡ some pc
      → length pc.cc_frame ≡ cc_frame_size
      → proto_encode_config_complete pb pc.nonce cc_frame_size ≡ encoded cc_bytes
      → length cc_bytes ≤ cc_frame_size
      → let p' = (serial_events f es).proxy in
        let held = cached pb.tags (frames f.proxy.cache) burst in
        let seg = segment pb.tags pc.nonce held in
        (pc' : ProxyConn) × (p'.upstream.state ≡ live)
        × (p'.upstream.pending ≡ [])
        × (p'.cache.ready ≡ true)
        × (frames p'.cache ≡ held)
        × (slot_of p'.ble.conns conn ≡ some pc')
        × ((fresh_reads pb.tags p'.cache (length seg + 2) pc').0
            ≡ map (λ f. f.bytes) seg ++ cc_bytes ∷ [] ∷ [])
  wire-serves law f es cs burst closing conn pc cc_bytes w v sound rx fits all_came off payloads
        opens ends d waits at size enc le =
      let delivered =
        serial-delivers law f es cs w sound rx fits all_came off
        ∙ ap (on_frames pb f.proxy) payloads in
      rw delivered (
        burst-serves pb f.proxy burst closing conn pc cc_bytes v.state v.serve_cb v.valid opens ends
          d v.once waits at size enc le)
