-- ===== src/Proxy/Parked/Node.antt =====
-- Parked phones and the frames from the node, by src/router.c.
use meshtastic_ble_proxy.Base.{
  ◌≡◌, ◌==◌, sym, ap, subst, ◌∙◌, Bool, true, false, not, arith, if◌then◌else◌, Option, none, some,
  Bytes, length, inl, inr,
}
use meshtastic_ble_proxy.Nanopb.{Nanopb}
use meshtastic_ble_proxy.ProxyProtocol.{ProxyHeader, proxy_portnum, proxy_header_parse}
use meshtastic_ble_proxy.Proto.{FromradioInfo, proto_decode_fromradio}
use meshtastic_ble_proxy.ConfigCache.{Cache, cache_mark_ready}
use meshtastic_ble_proxy.ConfigCache.Frames.{add_frame-ready}
use meshtastic_ble_proxy.Ble.State.{Conn, Ble}
use meshtastic_ble_proxy.Ble.Connections.{ble_gatt_get_conn_by_proxy_id}
use meshtastic_ble_proxy.Ble.Queue.{ble_gatt_broadcast_fromradio}
use meshtastic_ble_proxy.Ble.Burst.Parked.{replay}
use meshtastic_ble_proxy.Ble.Table.Parked.{broadcast_from-All, enqueue-All}
use meshtastic_ble_proxy.Upstream.{
  Upstream, UpstreamState, boot, fetching, cache_ready, live, consume,
  upstream_swallow_live_queuestatus,
}
use meshtastic_ble_proxy.Upstream.Outcomes.{on_fromradio_cases, finish-keeps}
use meshtastic_ble_proxy.Proxy.{
  Proxy, broadcast, enqueue, deliver, swallow_or_broadcast, route, offer, router_dispatch,
  on_fromradio_uart,
}
use meshtastic_ble_proxy.Proxy.Parked.{Waits, Waits-IsStable, Remembers, if-Remembers}

module _ (pb : Nanopb) (p : Proxy) (w : Remembers p) where
  broadcast-Remembers : (raw : Bytes) → Remembers (broadcast p raw)
  unfolding ble_gatt_broadcast_fromradio
  broadcast-Remembers raw r =
      broadcast_from-All (Waits p.upstream.pending) (Waits-IsStable p.upstream.pending) 6 p.ble raw
        0 0 (w r)

  swallow-Remembers : (raw : Bytes) → Remembers (swallow_or_broadcast p raw)
  unfolding swallow_or_broadcast upstream_swallow_live_queuestatus
  swallow-Remembers raw = go p.upstream.keepalive_pending
    where
      go :
          (waits : Bool)
          → Remembers (
              let r : Bool × Upstream =
                if waits
                then (true, record (p.upstream) { keepalive_pending = false })
                else (false, p.upstream) in
              if r.0 then record p { upstream = r.1 } else broadcast p raw)
      go true = w
      go false = broadcast-Remembers raw

  deliver-Remembers : (raw : Bytes) (hdr : Option ProxyHeader) → Remembers (deliver p raw hdr)
  unfolding deliver
  deliver-Remembers raw none = broadcast-Remembers raw
  deliver-Remembers raw (some hdr) = go (ble_gatt_get_conn_by_proxy_id p.ble hdr.dst)
    where
      go :
          (found : Option Conn)
          → Remembers (elim found [ none ↦ broadcast p raw | some conn ↦ enqueue p conn raw ])
      go none = broadcast-Remembers raw
      go (some conn) = λ r.
          enqueue-All (Waits p.upstream.pending) (Waits-IsStable p.upstream.pending) p.ble (w r)
            conn raw

  route-Remembers : (raw : Bytes) (info : FromradioInfo) → Remembers (route pb p raw info)
  unfolding route
  route-Remembers raw info =
      if-Remembers _ _ (not (info.which_variant == pb.tags.packet_tag))
        (if-Remembers _ _ (info.which_variant == pb.tags.queue_status_tag) (swallow-Remembers raw)
          (broadcast-Remembers raw))
        (if-Remembers _ _ (not info.is_decoded) (broadcast-Remembers raw) (
          if-Remembers _ _ (info.portnum == proxy_portnum)
            (deliver-Remembers raw (proxy_header_parse info.payload)) (broadcast-Remembers raw)))

  offer-Remembers : (raw : Bytes) (info : FromradioInfo) → Remembers (offer pb p raw info).1
  unfolding offer consume cache_mark_ready
  offer-Remembers raw info =
      elim (on_fromradio_cases (replay pb) pb p.upstream p.cache p.ble raw info) [
        | inl e ↦ subst joined (sym e) w
        | inr (inl e) ↦
            subst joined (sym e)
              (λ r. w (sym (add_frame-ready pb.tags p.cache raw info.which_variant) ∙ r))
        | inr (inr (nonce, e)) ↦
            let (_, published, _) =
              finish-keeps (replay pb) pb (λ b. Unit {0}) (λ conn b h. tt) p.upstream p.cache p.ble
                (length raw) info.which_variant nonce tt in
            subst joined (sym e) (λ r.
              let yes : true ≡ false = sym (ap (λ c. c.ready) published) ∙ r in
              absurd (ground arith))
      ]
    where
      joined : Bool × Upstream × Cache × Ble → Type 0
      joined (c, u, cache, ble) = Remembers (record p { upstream = u; cache = cache; ble = ble })

module _ (pb : Nanopb) (p : Proxy) (w : Remembers p) where
  dispatch-Remembers :
      (raw : Bytes) (info : FromradioInfo) → Remembers (router_dispatch pb p raw info)
  unfolding router_dispatch
  dispatch-Remembers raw info = go p.upstream.state
    where
      go :
          (st : UpstreamState)
          → Remembers (elim st [
            | fetching ↦
                let (consumed, q) = offer pb p raw info in
                if consumed then q else route pb q raw info
            | _ ↦ route pb p raw info
          ])
      go boot = route-Remembers pb p w raw info
      go fetching =
          let after = offer-Remembers pb p w raw info in
          if-Remembers _ _ (offer pb p raw info).0 after
            (route-Remembers pb (offer pb p raw info).1 after raw info)
      go cache_ready = route-Remembers pb p w raw info
      go live = route-Remembers pb p w raw info

  pub from_node-Remembers : (payload : Bytes) → Remembers (on_fromradio_uart pb p payload)
  unfolding on_fromradio_uart
  from_node-Remembers payload = go (proto_decode_fromradio pb payload)
    where
      go :
          (decoded : Option FromradioInfo)
          → Remembers (elim decoded [
            | none ↦ broadcast p payload
            | some info ↦ router_dispatch pb p payload info
          ])
      go none = broadcast-Remembers pb p w payload
      go (some info) = dispatch-Remembers payload info
