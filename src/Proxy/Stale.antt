-- ===== src/Proxy/Stale.antt =====
-- A phone that goes while it waits for the config burst: `on_disconnected` of src/ble_gatt.c leaves it
-- in the list that src/upstream_session.c serves at the burst's end.
use meshtastic_ble_proxy.Base.{
  ℕ, ◌+◌, ◌≤◌, ◌≡◌, subst, some, [], ◌∷◌, ◌++◌, true, false, length, map, Bytes, Rc,
}
use meshtastic_ble_proxy.Nanopb.{Nanopb, HasDistinctTags}
use meshtastic_ble_proxy.Proto.{proto_encode_config_complete, encoded}
use meshtastic_ble_proxy.ConfigCache.Layout.{IsValid}
use meshtastic_ble_proxy.ConfigCache.Frames.{frames}
use meshtastic_ble_proxy.ConfigCache.Segments.{segment}
use meshtastic_ble_proxy.Ble.State.{Conn, ProxyConn, cc_frame_size}
use meshtastic_ble_proxy.Ble.Connections.{on_connected, on_disconnected}
use meshtastic_ble_proxy.Ble.Connections.Slots.{slot_of}
use meshtastic_ble_proxy.Ble.Reads.Replay.{fresh_reads}
use meshtastic_ble_proxy.Ble.Burst.Parked.{replay}
use meshtastic_ble_proxy.Ble.Table.Operations.{IsValidBle}
use meshtastic_ble_proxy.Ble.Table.Lifecycle.{disconnected-IsValidBle}
use meshtastic_ble_proxy.Ble.Table.Fresh.{
  on_connected-IsFresh, on_disconnected-gone, on_disconnected-room,
}
use meshtastic_ble_proxy.Upstream.{fetching, is_pending}
use meshtastic_ble_proxy.Upstream.Waiting.{IsOnce}
use meshtastic_ble_proxy.Upstream.Session.{Incoming, IsEnd}
use meshtastic_ble_proxy.Proxy.{Proxy, router_dispatch}
use meshtastic_ble_proxy.Proxy.Serving.{burst_end-serves}

-- A phone goes, and another connects under the same connection.
abbrev pub replaced : Proxy → Conn → Rc → Rc → Proxy
replaced p conn gone come = record p {
  ble = on_connected (on_disconnected p.ble conn gone) conn false come;
}

module _ (pb : Nanopb) (p : Proxy) (f : Incoming) (st : p.upstream.state ≡ fetching)
    (cb : p.upstream.serve_cb ≡ true) (valid : IsValid pb.tags p.cache)
    (end : IsEnd (replay pb) pb p.upstream.nonce f) where
  -- While the session fetches, a phone that waits goes, and another connects under the same
  -- connection. The session's closing frame serves it, though it has asked for nothing: its reads
  -- give the cached frames of the segment of nonce 0 and then a closing frame with the nonce 0. The
  -- conditions on the cache, the callback and the closing frame are those of `burst_end-serves`.
  pub replaced-IsServed :
      (conn : Conn) (pc : ProxyConn) (gone come : Rc) (cc_bytes : Bytes)
      → HasDistinctTags pb.tags
      → IsOnce p.upstream.pending
      → is_pending conn p.upstream.pending ≡ true
      → IsValidBle p.ble
      → slot_of p.ble.conns conn ≡ some pc
      → proto_encode_config_complete pb 0 cc_frame_size ≡ encoded cc_bytes
      → length cc_bytes ≤ cc_frame_size
      → let p' = router_dispatch pb (replaced p conn gone come) f.payload f.info in
        let seg = segment pb.tags 0 (frames p.cache) in
        (pc' : ProxyConn) × (slot_of p'.ble.conns conn ≡ some pc')
        × ((fresh_reads pb.tags p'.cache (length seg + 2) pc').0
            ≡ map (λ f. f.bytes) seg ++ cc_bytes ∷ [] ∷ [])
  replaced-IsServed conn pc gone come cc_bytes d once waits v at enc le =
      let left = on_disconnected p.ble conn gone in
      let (new, held, fresh, _) =
        on_connected-IsFresh left conn come (disconnected-IsValidBle p.ble conn gone v)
          (on_disconnected-gone p.ble conn gone v.distinct)
          (on_disconnected-room p.ble conn pc gone v at) in
      let p' = replaced p conn gone come in
      let (pc', _, _, _, at', reads) =
        burst_end-serves pb p' f st cb valid end conn new cc_bytes d once waits held fresh.closing
          (rw fresh.nonce enc) le in
      let served : ℕ → Type 0 = λ n.
        let seg = segment pb.tags n (frames p.cache) in
        (fresh_reads pb.tags (router_dispatch pb p' f.payload f.info).cache (length seg + 2) pc').0
        ≡ map (λ f. f.bytes) seg ++ cc_bytes ∷ [] ∷ [] in
      (pc', at', subst served fresh.nonce reads)
