-- ===== src/Proxy/Serving.antt =====
-- The end of the config burst in the whole proxy: src/router.c, src/upstream_session.c and
-- src/ble_gatt.c together.
use meshtastic_ble_proxy.Base.{
  ◌+◌, ◌≤◌, ◌≡◌, refl, false, subst, ap, ◌∙◌, some, List, [], ◌∷◌, ◌++◌, arith, true, length, map,
  Bytes,
}
use meshtastic_ble_proxy.Nanopb.{Nanopb, HasDistinctTags}
use meshtastic_ble_proxy.Proto.{proto_encode_config_complete, encoded}
use meshtastic_ble_proxy.ConfigCache.{Cache}
use meshtastic_ble_proxy.ConfigCache.Layout.{IsValid}
use meshtastic_ble_proxy.ConfigCache.Frames.{Frame, frames}
use meshtastic_ble_proxy.ConfigCache.Segments.{segment}
use meshtastic_ble_proxy.Ble.State.{Conn, ProxyConn, cc_frame_size}
use meshtastic_ble_proxy.Ble.Connections.Slots.{slot_of}
use meshtastic_ble_proxy.Ble.Reads.Replay.{fresh_reads}
use meshtastic_ble_proxy.Ble.Burst.Arming.{armed, armed-serves_segment}
use meshtastic_ble_proxy.Ble.Burst.Parked.{replay, serve_all-armed, serve_all-other}
use meshtastic_ble_proxy.Upstream.{fetching, live, is_pending}
use meshtastic_ble_proxy.Upstream.Waiting.{IsOnce}
use meshtastic_ble_proxy.Upstream.Session.{Incoming, IsEnd, feed}
use meshtastic_ble_proxy.Upstream.Session.End.{end-IsServed, on_fromradio-end}
use meshtastic_ble_proxy.Proxy.{Proxy, router_dispatch, offer}

module _ (pb : Nanopb) (p : Proxy) (f : Incoming) (st : p.upstream.state ≡ fetching)
    (cb : p.upstream.serve_cb ≡ true) (valid : IsValid pb.tags p.cache)
    (end : IsEnd (replay pb) pb p.upstream.nonce f) where
  abbrev fed : Proxy
  fed =
      let (u, cache, ble) = feed (replay pb) pb p.upstream p.cache p.ble (f ∷ []) in
      record p { upstream = u; cache = cache; ble = ble }

  dispatch-end : router_dispatch pb p f.payload f.info ≡ fed
  unfolding router_dispatch offer feed
  dispatch-end = ground (arith, on_fromradio-end (replay pb) pb p.upstream p.cache p.ble f st end)

  -- While the session fetches, with a callback registered and a well-formed cache, the closing
  -- frame of the session's nonce makes the session live and the cache ready, and no phone waits any
  -- longer. A phone in the session's list, with distinct tags, none standing in the list twice,
  -- and its closing frame encoding into at most 16 bytes, is given by its reads from there on the cached frames of the
  -- segment that its stored nonce asks for, in the order of the burst, then the closing frame with
  -- its own nonce, then nothing.
  pub burst_end-serves :
      (conn : Conn) (pc : ProxyConn) (cc_bytes : Bytes)
      → HasDistinctTags pb.tags
      → IsOnce p.upstream.pending
      → is_pending conn p.upstream.pending ≡ true
      → slot_of p.ble.conns conn ≡ some pc
      → length pc.cc_frame ≡ cc_frame_size
      → proto_encode_config_complete pb pc.nonce cc_frame_size ≡ encoded cc_bytes
      → length cc_bytes ≤ cc_frame_size
      → let p' = router_dispatch pb p f.payload f.info in
        let seg = segment pb.tags pc.nonce (frames p.cache) in
        (pc' : ProxyConn) × (p'.upstream.state ≡ live)
        × (p'.upstream.pending ≡ [])
        × (p'.cache.ready ≡ true)
        × (slot_of p'.ble.conns conn ≡ some pc')
        × ((fresh_reads pb.tags p'.cache (length seg + 2) pc').0
            ≡ map (λ f. f.bytes) seg ++ cc_bytes ∷ [] ∷ [])
  burst_end-serves conn pc cc_bytes d once waits at size enc le =
      let s = end-IsServed (replay pb) pb p.upstream p.cache p.ble f st cb valid end in
      let d' : Cache = fed.cache in
      let reads : List Frame → Type 0 = λ fs.
        (fresh_reads pb.tags d' (length (segment pb.tags pc.nonce fs) + 2) (armed cc_bytes 0 pc)).0
        ≡ map (λ f. f.bytes) (segment pb.tags pc.nonce fs) ++ cc_bytes ∷ [] ∷ [] in
      rw dispatch-end (
        armed cc_bytes 0 pc,
        s.state,
        s.pending,
        s.ready,
        ap (λ b. slot_of b.conns conn) s.phones
            ∙ serve_all-armed pb p.upstream.pending p.ble conn pc cc_bytes once waits at enc,
        subst reads s.held
            (armed-serves_segment pb d' 0 pc.nonce pc cc_bytes d s.valid refl size le),
      )

  -- Under the same conditions a phone that is not in the session's list keeps its slot as it is.
  pub burst_end-leaves :
      (conn : Conn)
      → is_pending conn p.upstream.pending ≡ false
      → let p' = router_dispatch pb p f.payload f.info in
        (p'.upstream.state ≡ live)
        × (p'.upstream.pending ≡ [])
        × (slot_of p'.ble.conns conn ≡ slot_of p.ble.conns conn)
  burst_end-leaves conn unlisted =
      let s = end-IsServed (replay pb) pb p.upstream p.cache p.ble f st cb valid end in
      rw dispatch-end (
        s.state,
        s.pending,
        ap (λ b. slot_of b.conns conn) s.phones
            ∙ serve_all-other pb p.upstream.pending p.ble conn unlisted,
      )
