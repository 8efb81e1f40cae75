-- ===== src/Proxy/Routing.antt =====
-- Where src/router.c sends a frame from the node.
use meshtastic_ble_proxy.Base.{
  ◌<◌, ◌≡◌, ◌≢◌, refl, ◌∙◌, ◌&&◌, Option, none, some, [], ◌∷◌, ◌++◌, map, arith, ◌==◌,
  if◌then◌else◌, length, Bytes, All, replicate,
}
use meshtastic_ble_proxy.Nanopb.{Nanopb}
use meshtastic_ble_proxy.ProxyProtocol.{
  proxy_portnum, ProxyHeader, proxy_header_parse, proxy_id_size,
}
use meshtastic_ble_proxy.Proto.{FromradioInfo}
use meshtastic_ble_proxy.Ble.State.{
  Conn, ProxyConn, Ble, notify_fromnum, fromradio_queue_depth, max_ble_connections,
}
use meshtastic_ble_proxy.Ble.Connections.{ble_gatt_get_conn_by_proxy_id}
use meshtastic_ble_proxy.Ble.Connections.Slots.{slot_of, IsDistinct}
use meshtastic_ble_proxy.Ble.Connections.Registry.{HasSize, get_conn-found}
use meshtastic_ble_proxy.Ble.Queue.Fifo.{IsValidSlot, IsPacket, waiting}
use meshtastic_ble_proxy.Ble.Queue.Delivery.{enqueue-delivers}
use meshtastic_ble_proxy.Ble.Queue.Broadcast.{broadcast-gives_all, given}
use meshtastic_ble_proxy.Upstream.{Upstream, consume, fetching}
use meshtastic_ble_proxy.Ble.Burst.Parked.{replay}
use meshtastic_ble_proxy.ConfigCache.{Cache}
use meshtastic_ble_proxy.ConfigCache.Layout.{IsValid}
use meshtastic_ble_proxy.ConfigCache.Frames.{frames, add, frames-add_frame}
use meshtastic_ble_proxy.Upstream.Session.{IsOpen}
use meshtastic_ble_proxy.Upstream.Session.Fetching.{on_fromradio-packet, on_fromradio-open}
use meshtastic_ble_proxy.Proxy.{Proxy, broadcast, enqueue, deliver, route, offer, router_dispatch}

-- A packet's header, where the packet is one of the proxy's port.
abbrev pub header_of : FromradioInfo → Option ProxyHeader
header_of info =
    if info.is_decoded && (info.portnum == proxy_portnum)
    then proxy_header_parse info.payload
    else none

-- The phone that a packet is for.
abbrev pub addressee : Ble → FromradioInfo → Option Conn
addressee b info = elim (header_of info) [
  | none ↦ none
  | some hdr ↦ ble_gatt_get_conn_by_proxy_id b hdr.dst
]

module _ (pb : Nanopb) (p : Proxy) (raw : Bytes) (info : FromradioInfo) where
  -- A live packet is routed at once, also while the config burst is fetched: to its addressee
  -- alone, or to all.
  packet-route :
      info.which_variant ≡ pb.tags.packet_tag
      → router_dispatch pb p raw info
        ≡ elim (addressee p.ble info) [ none ↦ broadcast p raw | some conn ↦ enqueue p conn raw ]
  unfolding router_dispatch offer route deliver
  packet-route h =
      ground (arith, on_fromradio-packet (replay pb) pb p.upstream p.cache p.ble raw info h)

  -- In slots where no connection stands twice and every identifier has four bytes, a packet of at
  -- most 512 bytes on the proxy's port, whose header is addressed to an identifier other than zero
  -- that one connected phone alone has registered, is queued for that phone behind the packets that
  -- wait, and it is notified, if its slot is valid and fewer than eight wait, in every state of the
  -- session. No other phone's slot changes, nor the cache, the session or the transmit queue.
  pub packet-reaches_addressee :
      (hdr : ProxyHeader) (conn : Conn) (pc : ProxyConn)
      → info.which_variant ≡ pb.tags.packet_tag
      → header_of info ≡ some hdr
      → IsDistinct p.ble.conns
      → All HasSize p.ble.conns
      → slot_of p.ble.conns conn ≡ some pc
      → pc.proxy_id ≡ hdr.dst
      → hdr.dst ≢ replicate proxy_id_size 0
      → ((other : Conn) (q : ProxyConn)
          → slot_of p.ble.conns other ≡ some q
          → q.proxy_id ≡ hdr.dst
          → other ≡ conn)
      → IsValidSlot pc
      → IsPacket raw
      → pc.count < fromradio_queue_depth
      → let p' = router_dispatch pb p raw info in
        (pc' : ProxyConn) × (slot_of p'.ble.conns conn ≡ some pc')
        × (waiting pc' ≡ waiting pc ++ raw ∷ [])
        × (p'.ble.effects ≡ notify_fromnum conn pc'.fromnum ∷ p.ble.effects)
        × ((other : Conn) → other ≢ conn → slot_of p'.ble.conns other ≡ slot_of p.ble.conns other)
        × (p'.cache ≡ p.cache)
        × (p'.upstream ≡ p.upstream)
        × (p'.tx ≡ p.tx)
  packet-reaches_addressee hdr conn pc h has d sizes at own set alone v small room =
      let known : ble_gatt_get_conn_by_proxy_id p.ble hdr.dst ≡ some conn =
        get_conn-found p.ble hdr.dst conn pc d sizes at own set alone in
      let e : router_dispatch pb p raw info ≡ enqueue p conn raw = packet-route h ∙ ground arith in
      let (pc', rc, at', more, num, told, others) =
        enqueue-delivers p.ble conn raw pc v at small room in
      rw e (pc', at', more, told, others, refl, refl, refl)

  -- In six slots where no connection stands twice, a live packet of at most 512 bytes without an
  -- addressee is queued once for every connected phone with fewer than eight packets waiting, in
  -- every state of the session, and the cache, the session and the transmit queue stay as they are.
  pub packet-reaches_all :
      info.which_variant ≡ pb.tags.packet_tag
      → addressee p.ble info ≡ none
      → length p.ble.conns ≡ max_ble_connections
      → IsDistinct p.ble.conns
      → IsPacket raw
      → let p' = router_dispatch pb p raw info in
        (p'.ble.conns ≡ map (given raw) p.ble.conns)
        × (p'.cache ≡ p.cache)
        × (p'.upstream ≡ p.upstream)
        × (p'.tx ≡ p.tx)
  packet-reaches_all h nobody size d small =
      let e : router_dispatch pb p raw info ≡ broadcast p raw = packet-route h ∙ ground arith in
      rw e ((broadcast-gives_all p.ble raw size d small).0, refl, refl, refl)

  -- While the burst is fetched into a well-formed cache, a frame that is no live packet and does
  -- not end the burst reaches no phone and not the transmit queue: it is appended to the cached
  -- frames if the cache has room for it.
  pub burst-IsHeld :
      p.upstream.state ≡ fetching
      → IsValid pb.tags p.cache
      → info.which_variant ≢ pb.tags.packet_tag
      → IsOpen (replay pb) pb p.upstream.nonce (record { payload = raw; info = info })
      → let p' = router_dispatch pb p raw info in
        (p'.ble ≡ p.ble)
        × (p'.tx ≡ p.tx)
        × (p'.upstream.state ≡ fetching)
        × (frames p'.cache
            ≡ add (frames p.cache) (record { bytes = raw; variant = info.which_variant }))
  unfolding router_dispatch offer consume
  burst-IsHeld st v live h =
      rw held (refl, refl, st, (frames-add_frame pb.tags p.cache v raw info.which_variant).1)
    where
      r : Upstream × Cache
      r = consume pb.tags p.upstream p.cache raw info.which_variant

      held : router_dispatch pb p raw info ≡ record p { upstream = r.0; cache = r.1 }
      held = ground (
        arith,
        on_fromradio-open (replay pb) pb p.upstream p.cache p.ble
            (record { payload = raw; info = info }) st h,
      )
