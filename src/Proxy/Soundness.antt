-- ===== src/Proxy/Soundness.antt =====
-- The invariant of the whole proxy, and that routing a frame keeps it.
pub mod Node
pub mod Phones
pub mod Steps
use meshtastic_ble_proxy.Base.{
  ℕ, zero, suc, ◌+◌, ◌≤◌, ◌<◌, ◌≡◌, ◌≢◌, refl, sym, ap, ◌∙◌, Bool, true, false, not, ◌||◌, ◌&&◌,
  Option, none, some, List, [], ◌∷◌, ◌++◌, arith, ◌==◌, ltb, leb, if◌then◌else◌, length, Bytes, Rc,
  ok, err, All, All-append, Option-cases, Bool-cases, inl, inr, ◌⊎◌, subst,
}
use meshtastic_ble_proxy.Nanopb.{Nanopb, Tags}
use meshtastic_ble_proxy.Proto.{
  FromradioInfo, ToradioInfo, proto_decode_fromradio, proto_decode_toradio,
}
use meshtastic_ble_proxy.ConfigCache.{Cache, cache_add_frame, cache_mark_ready, cache_begin}
use meshtastic_ble_proxy.ConfigCache.Layout.{
  IsValid, cache_add_frame-IsValid, mark_ready-IsValid, cache_begin-IsValid,
}
use meshtastic_ble_proxy.ConfigCache.Frames.{Frame, frames, add, has_room, frames-add_frame}
use meshtastic_ble_proxy.Uart.{Tx, uart_meshtastic_tx}
use meshtastic_ble_proxy.Uart.Transmit.{IsSafe, tx-IsSafe}
use meshtastic_ble_proxy.ProxyProtocol.{ProxyHeader, proxy_header_parse, proxy_portnum}
use meshtastic_ble_proxy.Ble.Connections.{ble_gatt_get_conn_by_proxy_id}
use meshtastic_ble_proxy.Ble.State.{Conn, Ble}
use meshtastic_ble_proxy.Ble.Queue.{
  ble_gatt_enqueue_fromradio, ble_gatt_broadcast_fromradio, ble_gatt_reply_queuestatus,
}
use meshtastic_ble_proxy.Ble.Queue.Fifo.{IsPacket}
use meshtastic_ble_proxy.Ble.Reads.Bounds.{IsServable}
use meshtastic_ble_proxy.Ble.Burst.{ble_gatt_replay_cached_burst, park_slot}
use meshtastic_ble_proxy.Ble.Burst.Parked.{replay}
use meshtastic_ble_proxy.Ble.Table.Operations.{
  IsValidBle, enqueue-IsValidBle, broadcast_from-IsValidBle, replay-IsValidBle, reply-IsValidBle,
}
use meshtastic_ble_proxy.Ble.Table.Lifecycle.{park-IsValidBle}
use meshtastic_ble_proxy.Upstream.{
  Upstream, UpstreamState, boot, fetching, cache_ready, live, consume, finish, serve_one_pending,
  serve_pending_phones, upstream_on_fromradio, upstream_on_pending_phone,
  upstream_swallow_live_queuestatus, upstream_keepalive_reschedule, max_pending,
}
use meshtastic_ble_proxy.Upstream.Waiting.{IsOnce, pending_phone-IsOnce}
use meshtastic_ble_proxy.Upstream.Outcomes.{on_fromradio_cases, finish-keeps, on_pending-keeps}
use meshtastic_ble_proxy.Proxy.{
  Proxy, broadcast, enqueue, deliver, swallow_or_broadcast, route, offer, router_dispatch,
  on_fromradio_uart, ble_gatt_park_pending, serve_want_config, forward, handle_toradio,
  on_toradio_ble, toradio_write,
}
use meshtastic_ble_proxy.Proxy.Routing.{addressee}

-- The slots are sound, the cache is well-formed and its frames fit the staging buffer, at most six
-- phones wait, none twice, and the transmit queue is safe.
pub record IsSoundProxy (pb : Nanopb) (p : Proxy) : Type 0 where
  pub slots : IsValidBle p.ble
  pub servable : IsServable pb.tags p.cache
  pub once : IsOnce p.upstream.pending
  pub few : length p.upstream.pending ≤ max_pending
  pub tx : IsSafe p.tx

pub if-IsSound :
    {pb : Nanopb} {p q : Proxy} (b : Bool)
    → IsSoundProxy pb p
    → IsSoundProxy pb q
    → IsSoundProxy pb (if b then p else q)
if-IsSound true v w = v
if-IsSound false v w = w

module _ (pb : Nanopb) (p : Proxy) (w : IsSoundProxy pb p) where
  pub with_ble : (b : Ble) → IsValidBle b → IsSoundProxy pb (record p { ble = b })
  with_ble b v = record { slots = v; servable = w.servable; once = w.once; few = w.few; tx = w.tx }

  pub broadcast-IsSound : (raw : Bytes) → IsSoundProxy pb (broadcast p raw)
  unfolding ble_gatt_broadcast_fromradio
  broadcast-IsSound raw = with_ble _ (broadcast_from-IsValidBle 6 p.ble raw 0 0 w.slots)

  enqueue-IsSound : (conn : Conn) (raw : Bytes) → IsSoundProxy pb (enqueue p conn raw)
  enqueue-IsSound conn raw = with_ble _ (enqueue-IsValidBle p.ble conn raw w.slots)

  swallow-IsSound : (raw : Bytes) → IsSoundProxy pb (swallow_or_broadcast p raw)
  unfolding swallow_or_broadcast upstream_swallow_live_queuestatus
  swallow-IsSound raw = go p.upstream.keepalive_pending
    where
      go :
          (waits : Bool)
          → IsSoundProxy pb (
              let r : Bool × Upstream =
                if waits
                then (true, record (p.upstream) { keepalive_pending = false })
                else (false, p.upstream) in
              if r.0 then record p { upstream = r.1 } else broadcast p raw)
      go true = record {
        slots = w.slots;
        servable = w.servable;
        once = w.once;
        few = w.few;
        tx = w.tx;
      }
      go false = broadcast-IsSound raw

  deliver-IsSound : (raw : Bytes) (hdr : Option ProxyHeader) → IsSoundProxy pb (deliver p raw hdr)
  unfolding deliver
  deliver-IsSound raw none = broadcast-IsSound raw
  deliver-IsSound raw (some hdr) = go (ble_gatt_get_conn_by_proxy_id p.ble hdr.dst)
    where
      go :
          (found : Option Conn)
          → IsSoundProxy pb (elim found [ none ↦ broadcast p raw | some conn ↦ enqueue p conn raw ])
      go none = broadcast-IsSound raw
      go (some conn) = enqueue-IsSound conn raw

  pub route-IsSound : (raw : Bytes) (info : FromradioInfo) → IsSoundProxy pb (route pb p raw info)
  unfolding route
  route-IsSound raw info =
      if-IsSound (not (info.which_variant == pb.tags.packet_tag))
        (if-IsSound (info.which_variant == pb.tags.queue_status_tag) (swallow-IsSound raw)
          (broadcast-IsSound raw))
        (if-IsSound (not info.is_decoded) (broadcast-IsSound raw) (
          if-IsSound (info.portnum == proxy_portnum)
            (deliver-IsSound raw (proxy_header_parse info.payload)) (broadcast-IsSound raw)))
