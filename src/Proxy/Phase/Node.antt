-- ===== src/Proxy/Phase/Node.antt =====
-- The phases of the session and the frames from the node, by src/router.c.
use meshtastic_ble_proxy.Base.{
  ℕ, ◌≡◌, ◌≢◌, ◌==◌, refl, sym, subst, Bool, true, false, not, arith, if◌then◌else◌, Option, none,
  some, Bytes, length, inl, inr,
}
use meshtastic_ble_proxy.Nanopb.{Nanopb}
use meshtastic_ble_proxy.ProxyProtocol.{ProxyHeader, proxy_portnum, proxy_header_parse}
use meshtastic_ble_proxy.Proto.{FromradioInfo, proto_decode_fromradio}
use meshtastic_ble_proxy.ConfigCache.{Cache}
use meshtastic_ble_proxy.ConfigCache.Frames.{add_frame-ready}
use meshtastic_ble_proxy.Ble.State.{Conn, Ble}
use meshtastic_ble_proxy.Ble.Connections.{ble_gatt_get_conn_by_proxy_id}
use meshtastic_ble_proxy.Ble.Burst.Parked.{replay}
use meshtastic_ble_proxy.Upstream.{
  Upstream, UpstreamState, boot, fetching, cache_ready, live, consume,
  upstream_swallow_live_queuestatus,
}
use meshtastic_ble_proxy.Upstream.Outcomes.{on_fromradio_cases, finish-session}
use meshtastic_ble_proxy.Proxy.{
  Proxy, broadcast, enqueue, deliver, swallow_or_broadcast, route, offer, router_dispatch,
  on_fromradio_uart,
}
use meshtastic_ble_proxy.Proxy.Phase.{Moves, stays, completes, InPhase, Follows, Follow, if-Follow}

module _ (pb : Nanopb) (st : UpstreamState) (p : Proxy) (w : Follow st p) where
  swallow-Follow : (raw : Bytes) → Follow st (swallow_or_broadcast p raw)
  unfolding swallow_or_broadcast upstream_swallow_live_queuestatus
  swallow-Follow raw = go p.upstream.keepalive_pending
    where
      go :
          (waits : Bool)
          → Follow st (
              let r : Bool × Upstream =
                if waits
                then (true, record (p.upstream) { keepalive_pending = false })
                else (false, p.upstream) in
              if r.0 then record p { upstream = r.1 } else broadcast p raw)
      go true = w
      go false = w

  deliver-Follow : (raw : Bytes) (hdr : Option ProxyHeader) → Follow st (deliver p raw hdr)
  unfolding deliver
  deliver-Follow raw none = w
  deliver-Follow raw (some hdr) = go (ble_gatt_get_conn_by_proxy_id p.ble hdr.dst)
    where
      go :
          (found : Option Conn)
          → Follow st (elim found [ none ↦ broadcast p raw | some conn ↦ enqueue p conn raw ])
      go none = w
      go (some conn) = w

  route-Follow : (raw : Bytes) (info : FromradioInfo) → Follow st (route pb p raw info)
  unfolding route
  route-Follow raw info =
      if-Follow st _ _ (not (info.which_variant == pb.tags.packet_tag))
        (if-Follow st _ _ (info.which_variant == pb.tags.queue_status_tag) (swallow-Follow raw) w)
        (if-Follow st _ _ (not info.is_decoded) w (
          if-Follow st _ _ (info.portnum == proxy_portnum)
            (deliver-Follow raw (proxy_header_parse info.payload)) w))

module _ (pb : Nanopb) (p : Proxy) (w : InPhase p.upstream p.cache) where
  offer-Follow :
      (raw : Bytes) (info : FromradioInfo)
      → p.upstream.state ≡ fetching
      → Follow p.upstream.state (offer pb p raw info).1
  unfolding offer consume
  offer-Follow raw info fetches =
      elim (on_fromradio_cases (replay pb) pb p.upstream p.cache p.ble raw info) [
        | inl e ↦ subst joined (sym e) (w, stays p.upstream.state)
        | inr (inl e) ↦ subst joined (sym e) (consumed info.which_variant raw)
        | inr (inr (nonce, e)) ↦ subst joined (sym e) (
            rw
              (finish-session (replay pb) pb p.upstream p.cache p.ble (length raw)
                info.which_variant nonce)
              (
                record {
                  settled = λ e'. ground arith;
                  published = λ e'. (refl, refl);
                  plain = λ ne. w.plain started;
                  armed = λ ne. w.armed started;
                  scheduled = w.scheduled;
                },
                subst (λ st. Moves st live) (sym fetches) completes,
              ))
      ]
    where
      joined : Bool × Upstream × Cache × Ble → Type 0
      joined (c, u, cache, ble) = Follows p.upstream.state u cache

      started : p.upstream.state ≢ boot
      started e = ground arith

      consumed :
          (variant : ℕ) (payload : Bytes)
          → let c = consume pb.tags p.upstream p.cache payload variant in
            Follows p.upstream.state c.0 c.1
      consumed variant payload =
          rw (add_frame-ready pb.tags p.cache payload variant) (w, stays p.upstream.state)

  dispatch-Follow :
      (raw : Bytes) (info : FromradioInfo) → Follow p.upstream.state (router_dispatch pb p raw info)
  unfolding router_dispatch
  dispatch-Follow raw info = go p.upstream.state refl
    where
      still : Follow p.upstream.state (route pb p raw info)
      still = route-Follow pb p.upstream.state p (w, stays p.upstream.state) raw info

      go :
          (st : UpstreamState)
          → p.upstream.state ≡ st
          → Follow p.upstream.state (elim st [
            | fetching ↦
                let (consumed, q) = offer pb p raw info in
                if consumed then q else route pb q raw info
            | _ ↦ route pb p raw info
          ])
      go boot e = still
      go fetching e =
          let after = offer-Follow raw info e in
          if-Follow p.upstream.state _ _ (offer pb p raw info).0 after
            (route-Follow pb p.upstream.state (offer pb p raw info).1 after raw info)
      go cache_ready e = still
      go live e = still

  pub from_node-Follow :
      (payload : Bytes) → Follow p.upstream.state (on_fromradio_uart pb p payload)
  unfolding on_fromradio_uart
  from_node-Follow payload = go (proto_decode_fromradio pb payload)
    where
      go :
          (decoded : Option FromradioInfo)
          → Follow p.upstream.state (elim decoded [
            | none ↦ broadcast p payload
            | some info ↦ router_dispatch pb p payload info
          ])
      go none = (w, stays p.upstream.state)
      go (some info) = dispatch-Follow payload info
