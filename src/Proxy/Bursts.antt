-- ===== src/Proxy/Bursts.antt =====
-- A whole config burst in the proxy: the frames as the serial port hands them on, decoded, dispatched
-- and cached, and the closing frame that serves the phones that wait.
use meshtastic_ble_proxy.Base.{
  ℕ, ◌+◌, ◌≤◌, ◌≡◌, ◌≢◌, refl, sym, subst, ap, ◌∙◌, true, some, List, [], ◌∷◌, ◌++◌, map, Bytes,
  length, All, arith,
}
use meshtastic_ble_proxy.Nanopb.{Nanopb, HasDistinctTags}
use meshtastic_ble_proxy.Proto.{proto_decode_fromradio, proto_encode_config_complete, encoded}
use meshtastic_ble_proxy.ConfigCache.{Cache}
use meshtastic_ble_proxy.ConfigCache.Layout.{IsValid}
use meshtastic_ble_proxy.ConfigCache.Frames.{Frame, frames}
use meshtastic_ble_proxy.ConfigCache.Segments.{segment}
use meshtastic_ble_proxy.Ble.State.{Conn, ProxyConn, cc_frame_size}
use meshtastic_ble_proxy.Ble.Connections.Slots.{slot_of}
use meshtastic_ble_proxy.Ble.Reads.Replay.{fresh_reads}
use meshtastic_ble_proxy.Ble.Burst.Arming.{armed, armed-serves_segment}
use meshtastic_ble_proxy.Ble.Burst.Parked.{replay, serve_all-armed}
use meshtastic_ble_proxy.Upstream.{fetching, live, is_pending, consume}
use meshtastic_ble_proxy.Upstream.Waiting.{IsOnce}
use meshtastic_ble_proxy.Upstream.Session.{Incoming, IsEnd, IsOpen, cached, feed}
use meshtastic_ble_proxy.Upstream.Session.Fetching.{on_fromradio-open}
use meshtastic_ble_proxy.Upstream.Session.End.{feed-IsServed, on_fromradio-end}
use meshtastic_ble_proxy.Proxy.{Proxy, router_dispatch, offer, on_fromradio_uart, on_frames}

module _ (pb : Nanopb) where
  -- A frame of the burst: it decodes, is no live packet and does not end the burst.
  abbrev pub IsBurstFrame : ℕ → Incoming → Type 0
  IsBurstFrame nonce f =
      (proto_decode_fromradio pb f.payload ≡ some f.info)
      × (f.info.which_variant ≢ pb.tags.packet_tag)
      × IsOpen (replay pb) pb nonce f

  -- The proxy whose session has been given the frames.
  abbrev fed : Proxy → List Incoming → Proxy
  fed p burst =
      let (u, cache, ble) = feed (replay pb) pb p.upstream p.cache p.ble burst in
      record p { upstream = u; cache = cache; ble = ble }

  abbrev consumed : Proxy → Incoming → Proxy
  consumed p f =
      let (u, cache) = consume pb.tags p.upstream p.cache f.payload f.info.which_variant in
      record p { upstream = u; cache = cache }

  frame-consumed :
      (p : Proxy) (f : Incoming) (rest : List Incoming)
      → p.upstream.state ≡ fetching
      → IsBurstFrame p.upstream.nonce f
      → (on_fromradio_uart pb p f.payload ≡ consumed p f)
        × (fed p (f ∷ rest) ≡ fed (consumed p f) rest)
  unfolding on_fromradio_uart router_dispatch offer feed
  frame-consumed p f rest st h =
      ground (arith, on_fromradio-open (replay pb) pb p.upstream p.cache p.ble f st (h.2))

  abbrev pub IsClosing : ℕ → Incoming → Type 0
  IsClosing nonce f =
      (proto_decode_fromradio pb f.payload ≡ some f.info) × IsEnd (replay pb) pb nonce f

  closing-fed :
      (p : Proxy) (f : Incoming)
      → p.upstream.state ≡ fetching
      → IsClosing p.upstream.nonce f
      → on_fromradio_uart pb p f.payload ≡ fed p (f ∷ [])
  unfolding on_fromradio_uart router_dispatch offer feed
  closing-fed p f st h =
      ground (arith, on_fromradio-end (replay pb) pb p.upstream p.cache p.ble f st (h.1))

  -- In the proxy a burst with its closing frame is what the session makes of it.
  burst-fed :
      (p : Proxy) (burst : List Incoming) (f : Incoming)
      → p.upstream.state ≡ fetching
      → All (IsBurstFrame p.upstream.nonce) burst
      → IsClosing p.upstream.nonce f
      → on_frames pb p (map (λ f. f.payload) (burst ++ f ∷ [])) ≡ fed p (burst ++ f ∷ [])
  unfolding on_frames consume
  burst-fed p [] f st h k = closing-fed p f st k
  burst-fed p (g ∷ burst) f st h k =
      let (given, step) = frame-consumed p g (burst ++ f ∷ []) st (h.0) in
      ap (λ q. on_frames pb q (map (λ f. f.payload) (burst ++ f ∷ []))) given
      ∙ burst-fed (consumed p g) burst f st (h.1) k
      ∙ sym step

  burst-IsOpen :
      (nonce : ℕ) (burst : List Incoming)
      → All (IsBurstFrame nonce) burst
      → All (IsOpen (replay pb) pb nonce) burst
  burst-IsOpen nonce [] h = tt
  burst-IsOpen nonce (f ∷ burst) h = (h.0.2, burst-IsOpen nonce burst (h.1))

  -- While the session fetches, with a callback registered and a well-formed cache, a burst of any
  -- length whose frames decode, are no live packets and do not end it, followed by the closing frame
  -- of the session's nonce, makes the session live and the cache ready with the frames of the burst
  -- that had room, and no phone waits any longer. A phone that waited, with distinct tags, none
  -- waiting twice, and its closing frame encoding into at most 16 bytes, is given by its reads from
  -- there on the cached frames of the segment that its stored nonce asks for, in the order of the
  -- burst, then the closing frame with its own nonce, then nothing.
  pub burst-serves :
      (p : Proxy) (burst : List Incoming) (f : Incoming)
      → (conn : Conn) (pc : ProxyConn) (cc_bytes : Bytes) → p.upstream.state ≡ fetching
      → p.upstream.serve_cb ≡ true
      → IsValid pb.tags p.cache
      → All (IsBurstFrame p.upstream.nonce) burst
      → IsClosing p.upstream.nonce f
      → HasDistinctTags pb.tags
      → IsOnce p.upstream.pending
      → is_pending conn p.upstream.pending ≡ true
      → slot_of p.ble.conns conn ≡ some pc
      → length pc.cc_frame ≡ cc_frame_size
      → proto_encode_config_complete pb pc.nonce cc_frame_size ≡ encoded cc_bytes
      → length cc_bytes ≤ cc_frame_size
      → let p' = on_frames pb p (map (λ f. f.payload) (burst ++ f ∷ [])) in
        let held = cached pb.tags (frames p.cache) burst in
        let seg = segment pb.tags pc.nonce held in
        (pc' : ProxyConn) × (p'.upstream.state ≡ live)
        × (p'.upstream.pending ≡ [])
        × (p'.cache.ready ≡ true)
        × (frames p'.cache ≡ held)
        × (slot_of p'.ble.conns conn ≡ some pc')
        × ((fresh_reads pb.tags p'.cache (length seg + 2) pc').0
            ≡ map (λ f. f.bytes) seg ++ cc_bytes ∷ [] ∷ [])
  burst-serves p burst f conn pc cc_bytes st cb valid opens closing d once waits at size enc le =
      let s =
        feed-IsServed (replay pb) pb p.upstream p.cache p.ble burst f st cb valid
          (burst-IsOpen p.upstream.nonce burst opens) (closing.1) in
      let d' : Cache = (fed p (burst ++ f ∷ [])).cache in
      let reads : List Frame → Type 0 = λ fs.
        (fresh_reads pb.tags d' (length (segment pb.tags pc.nonce fs) + 2) (armed cc_bytes 0 pc)).0
        ≡ map (λ f. f.bytes) (segment pb.tags pc.nonce fs) ++ cc_bytes ∷ [] ∷ [] in
      rw (burst-fed p burst f st opens closing) (
        armed cc_bytes 0 pc,
        s.state,
        s.pending,
        s.ready,
        s.held,
        ap (λ b. slot_of b.conns conn) s.phones
            ∙ serve_all-armed pb p.upstream.pending p.ble conn pc cc_bytes once waits at enc,
        subst reads s.held
            (armed-serves_segment pb d' 0 pc.nonce pc cc_bytes d s.valid refl size le),
      )
