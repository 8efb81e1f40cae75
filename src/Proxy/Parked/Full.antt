-- ===== src/Proxy/Parked/Full.antt =====
-- A phone that asks for the configuration during the fetch, up to the end of the burst: src/main.c,
-- src/ble_gatt.c and src/upstream_session.c with its list of six.
use meshtastic_ble_proxy.Base.{
  ◌+◌, ◌<◌, ◌≤◌, ◌≡◌, ◌⊎◌, refl, sym, subst, ap, ◌∙◌, true, false, some, [], ◌∷◌, ◌++◌, arith,
  length, map, Bytes, inl, inr, Bool-cases, leb, ==_refl, List,
}
use meshtastic_ble_proxy.Nanopb.{Nanopb, HasDistinctTags}
use meshtastic_ble_proxy.Proto.{
  ToradioInfo, proto_decode_toradio, proto_encode_config_complete, encoded,
}
use meshtastic_ble_proxy.ConfigCache.{Cache}
use meshtastic_ble_proxy.ConfigCache.Layout.{IsValid}
use meshtastic_ble_proxy.ConfigCache.Frames.{Frame, frames}
use meshtastic_ble_proxy.ConfigCache.Segments.{segment}
use meshtastic_ble_proxy.Ble.State.{Conn, ProxyConn, pending, cc_frame_size}
use meshtastic_ble_proxy.Ble.Connections.Slots.{slot_of}
use meshtastic_ble_proxy.Ble.Reads.Replay.{fresh_reads}
use meshtastic_ble_proxy.Ble.Burst.Parked.{replay}
use meshtastic_ble_proxy.Upstream.{fetching, live, is_pending, max_pending}
use meshtastic_ble_proxy.Upstream.Waiting.{IsOnce, IsOnce-snoc, is_pending-snoc}
use meshtastic_ble_proxy.Upstream.Session.{Incoming, IsEnd}
use meshtastic_ble_proxy.Proxy.{Proxy, toradio_write, router_dispatch}
use meshtastic_ble_proxy.Proxy.Phones.{listed_with, want_config-parked}
use meshtastic_ble_proxy.Proxy.Serving.{burst_end-serves, burst_end-leaves}

listed_with-IsOnce : (conn : Conn) (cs : List Conn) → IsOnce cs → IsOnce (listed_with conn cs)
listed_with-IsOnce conn cs once = ground (arith, IsOnce-snoc cs conn)

-- A connection is in the list that it asked for, unless six others are.
listed_with-cases :
    (conn : Conn) (cs : List Conn)
    → (((is_pending conn cs ≡ true) ⊎ (length cs < max_pending))
        × (is_pending conn (listed_with conn cs) ≡ true))
      ⊎ ((is_pending conn cs ≡ false)
          × (max_pending ≤ length cs)
          × (is_pending conn (listed_with conn cs) ≡ false))
listed_with-cases conn cs = elim (Bool-cases (is_pending conn cs)) [
  | inl there ↦ inl (inl there, ground arith)
  | inr new ↦ elim (Bool-cases (leb max_pending (length cs))) [
    | inl full ↦ inr (new, ground arith, ground arith)
    | inr room ↦
        inl (inr (ground arith), ground (arith, is_pending-snoc conn cs conn, ==_refl conn))
  ]
]

module _ (pb : Nanopb) (p : Proxy) (conn : Conn) (payload : Bytes) (ti : ToradioInfo)
    (pc : ProxyConn) (handler : p.ble.toradio_handler ≡ true)
    (decoded : proto_decode_toradio pb payload ≡ some ti) (asks : ti.has_want_config ≡ true)
    (at : slot_of p.ble.conns conn ≡ some pc) where
  -- With both callbacks registered, distinct tags and none waiting twice, a phone with a slot writes
  -- a want_config while the session fetches into a well-formed cache that is not ready, and then the
  -- closing frame of the session's nonce comes: the session is live and no phone waits. If the phone
  -- was in the list of those that wait, or fewer than six were, its reads from there on give the
  -- frames of the segment that its nonce asks for, in the order of the burst, then its closing frame,
  -- which encodes into at most 16 bytes, then nothing. Otherwise it is left: its slot is still PENDING
  -- under its nonce.
  pub want_config-served_or_left :
      (f : Incoming) (cc_bytes : Bytes)
      → p.upstream.state ≡ fetching
      → p.upstream.serve_cb ≡ true
      → p.cache.ready ≡ false
      → IsValid pb.tags p.cache
      → IsOnce p.upstream.pending
      → IsEnd (replay pb) pb p.upstream.nonce f
      → HasDistinctTags pb.tags
      → length pc.cc_frame ≡ cc_frame_size
      → proto_encode_config_complete pb ti.want_config_id cc_frame_size ≡ encoded cc_bytes
      → length cc_bytes ≤ cc_frame_size
      → let p' = router_dispatch pb (toradio_write pb p conn payload 0).1 f.payload f.info in
        let seg = segment pb.tags ti.want_config_id (frames p.cache) in
        (pc' : ProxyConn) × (p'.upstream.state ≡ live)
        × (p'.upstream.pending ≡ [])
        × (slot_of p'.ble.conns conn ≡ some pc')
        × ((((is_pending conn p.upstream.pending ≡ true)
                ⊎ (length p.upstream.pending < max_pending))
              × ((fresh_reads pb.tags p'.cache (length seg + 2) pc').0
                  ≡ map (λ f. f.bytes) seg ++ cc_bytes ∷ [] ∷ []))
            ⊎ ((is_pending conn p.upstream.pending ≡ false)
                × (max_pending ≤ length p.upstream.pending)
                × (pc' ≡ record pc { state = pending; nonce = ti.want_config_id })))
  want_config-served_or_left f cc_bytes st cb unready v once end d size enc le =
      let q = (toradio_write pb p conn payload 0).1 in
      let parked : ProxyConn = record pc { state = pending; nonce = ti.want_config_id } in
      let (_, at', session, cache, _) =
        want_config-parked pb p conn payload ti pc handler decoded asks at (inr st) unready in
      let st' : q.upstream.state ≡ fetching = ap (λ u. u.state) session ∙ st in
      let cb' : q.upstream.serve_cb ≡ true = ap (λ u. u.serve_cb) session ∙ cb in
      let v' : IsValid pb.tags q.cache = subst (IsValid pb.tags) (sym cache) v in
      let end' : IsEnd (replay pb) pb q.upstream.nonce f =
        subst (λ u. IsEnd (replay pb) pb u.nonce f) (sym session) end in
      let listing = ap (λ u. u.pending) session in
      elim (listed_with-cases conn p.upstream.pending) [
        | inl (early, listed) ↦
            let once' : IsOnce q.upstream.pending =
              subst IsOnce (sym listing) (listed_with-IsOnce conn p.upstream.pending once) in
            let (pc', lives, none_wait, _, slot, reads) =
              burst_end-serves pb q f st' cb' v' end' conn parked cc_bytes d once'
                (ap (is_pending conn) listing ∙ listed) at' size enc le in
            let d' : Cache = (router_dispatch pb q f.payload f.info).cache in
            let gives : List Frame → Type 0 = λ fs.
              let seg = segment pb.tags ti.want_config_id fs in
              (fresh_reads pb.tags d' (length seg + 2) pc').0
              ≡ map (λ f. f.bytes) seg ++ cc_bytes ∷ [] ∷ [] in
            (pc', lives, none_wait, slot, inl (early, subst gives (ap frames cache) reads))
        | inr (unlisted, full, still) ↦
            let (lives, none_wait, slot) =
              burst_end-leaves pb q f st' cb' v' end' conn (ap (is_pending conn) listing ∙ still) in
            (parked, lives, none_wait, slot ∙ at', inr (unlisted, full, refl))
      ]
