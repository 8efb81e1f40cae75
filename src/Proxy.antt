-- ===== src/Proxy.antt =====
-- The whole proxy: the state of its modules, src/router.c and the callbacks of src/main.c.
pub mod Routing
pub mod Phones
pub mod Serving
pub mod Stale
pub mod Bursts
pub mod Keepalive
pub mod Soundness
pub mod Phase
pub mod Parked
pub mod Service
pub mod Sample
mod Tests
use meshtastic_ble_proxy.Base.{
  ℕ, Bool, true, false, not, ◌&&◌, ◌||◌, Option, none, some, List, [], ◌∷◌, ◌==◌, if◌then◌else◌,
  Bytes, Rc, ok, err, length,
}
use meshtastic_ble_proxy.Nanopb.{Nanopb}
use meshtastic_ble_proxy.ProxyProtocol.{proxy_portnum, ProxyHeader, proxy_header_parse}
use meshtastic_ble_proxy.Proto.{
  FromradioInfo, ToradioInfo, proto_decode_fromradio, proto_decode_toradio,
}
use meshtastic_ble_proxy.ConfigCache.{Cache, cache_at_boot}
use meshtastic_ble_proxy.Uart.{Tx, tx_at_boot, uart_meshtastic_tx}
use meshtastic_ble_proxy.Ble.State.{Conn, Ble, ble_at_boot}
use meshtastic_ble_proxy.Ble.Connections.{
  ble_gatt_get_conn_by_proxy_id, WriteResult, taken, invalid_offset,
}
use meshtastic_ble_proxy.Ble.Queue.{
  ble_gatt_enqueue_fromradio, ble_gatt_broadcast_fromradio, ble_gatt_reply_queuestatus,
}
use meshtastic_ble_proxy.Ble.Burst.{ble_gatt_replay_cached_burst, park_slot}
use meshtastic_ble_proxy.Upstream.{
  upstream_get_state, Upstream, UpstreamState, boot, fetching, cache_ready, live, upstream_at_boot,
  upstream_on_fromradio, upstream_on_pending_phone, upstream_swallow_live_queuestatus,
  upstream_keepalive_reschedule, keepalive_work_handler, upstream_session_start,
}

pub record Proxy : Type 0 where
  pub ble : Ble
  pub cache : Cache
  pub upstream : Upstream
  pub tx : Tx

unfoldable pub proxy_at_boot : Proxy
proxy_at_boot = record {
  ble = ble_at_boot;
  cache = cache_at_boot;
  upstream = upstream_at_boot;
  tx = tx_at_boot;
}

-- `ble_gatt_broadcast_fromradio`, its count dropped.
abbrev pub broadcast : Proxy → Bytes → Proxy
broadcast p raw = record p { ble = (ble_gatt_broadcast_fromradio p.ble raw).1 }

-- `ble_gatt_enqueue_fromradio`, its code dropped.
abbrev pub enqueue : Proxy → Conn → Bytes → Proxy
enqueue p conn raw = record p { ble = (ble_gatt_enqueue_fromradio p.ble conn raw).1 }

-- A header's destination: the phone that registered it, or else all.
deliver : Proxy → Bytes → Option ProxyHeader → Proxy
deliver p raw none = broadcast p raw
deliver p raw (some hdr) = elim (ble_gatt_get_conn_by_proxy_id p.ble hdr.dst) [
  | none ↦ broadcast p raw
  | some conn ↦ enqueue p conn raw
]

-- The queueStatus that answers the keepalive is dropped.
swallow_or_broadcast : Proxy → Bytes → Proxy
swallow_or_broadcast p raw =
    let (ours, u) = upstream_swallow_live_queuestatus p.upstream in
    if ours then record p { upstream = u } else broadcast p raw

module _ (pb : Nanopb) where
  -- Behind the fetch window.
  pub route : Proxy → Bytes → FromradioInfo → Proxy
  unfolding deliver swallow_or_broadcast
  route p raw info =
      if not (info.which_variant == pb.tags.packet_tag)
      then if info.which_variant == pb.tags.queue_status_tag
        then swallow_or_broadcast p raw
        else broadcast p raw
      else if not info.is_decoded
      then broadcast p raw
      else if info.portnum == proxy_portnum
      then deliver p raw (proxy_header_parse info.payload)
      else broadcast p raw

  -- The session's part during the fetch. Its callback is the replay of src/ble_gatt.c.
  offer : Proxy → Bytes → FromradioInfo → Bool × Proxy
  offer p raw info =
      let (consumed, u, cache, ble) =
        upstream_on_fromradio (λ conn nonce b. ble_gatt_replay_cached_burst pb b conn nonce) pb
          p.upstream p.cache p.ble raw info in
      (consumed, record p { upstream = u; cache = cache; ble = ble })

  unfoldable pub router_dispatch : Proxy → Bytes → FromradioInfo → Proxy
  unfolding offer
  router_dispatch p raw info = elim (upstream_get_state p.upstream) [
    | fetching ↦ let (consumed, p') = offer p raw info in if consumed then p' else route p' raw info
    | _ ↦ route p raw info
  ]

  -- A frame from the node. One that cannot be decoded is broadcast as it is.
  unfoldable pub on_fromradio_uart : Proxy → Bytes → Proxy
  on_fromradio_uart p payload = elim (proto_decode_fromradio pb payload) [
    | none ↦ broadcast p payload
    | some info ↦ router_dispatch p payload info
  ]

  -- A list of frames, one after the other.
  unfoldable pub on_frames : Proxy → List Bytes → Proxy
  on_frames p [] = p
  on_frames p (frame ∷ frames) = on_frames (on_fromradio_uart p frame) frames

  -- A phone's want_config before the cache is ready.
  ble_gatt_park_pending : Proxy → Conn → ℕ → Proxy
  ble_gatt_park_pending p conn nonce = elim (park_slot p.ble conn nonce) [
    | none ↦ p
    | some ble ↦
        let (u, ble') =
          upstream_on_pending_phone (λ c n b. ble_gatt_replay_cached_burst pb b c n) p.cache
            p.upstream conn ble in
        record p { upstream = u; ble = ble' }
  ]

  serve_want_config : UpstreamState → Proxy → Conn → ℕ → Proxy
  unfolding ble_gatt_park_pending
  serve_want_config cache_ready p conn nonce = record p {
    ble = ble_gatt_replay_cached_burst pb p.ble conn nonce;
  }
  serve_want_config live p conn nonce = record p {
    ble = ble_gatt_replay_cached_burst pb p.ble conn nonce;
  }
  serve_want_config _ p conn nonce = ble_gatt_park_pending p conn nonce

  -- A packet for the node; the keepalive is put off where it is queued.
  forward : Proxy → Bytes → Proxy
  forward p payload =
      let (rc, tx) = uart_meshtastic_tx p.tx payload in
      elim rc [
        | ok ↦ record p { tx = tx; upstream = upstream_keepalive_reschedule p.upstream }
        | err e ↦ record p { tx = tx }
      ]

  handle_toradio : Proxy → Conn → Bytes → ToradioInfo → Proxy
  unfolding serve_want_config forward
  handle_toradio p conn payload ti =
      if ti.has_want_config
      then serve_want_config (upstream_get_state p.upstream) p conn ti.want_config_id
      else if ti.has_heartbeat
      then record p { ble = ble_gatt_reply_queuestatus pb p.ble conn }
      else forward p payload

  -- A phone's write. One that cannot be decoded is forwarded, with no effect on the keepalive.
  unfoldable pub on_toradio_ble : Proxy → Conn → Bytes → Proxy
  unfolding handle_toradio
  on_toradio_ble p conn payload = elim (proto_decode_toradio pb payload) [
    | none ↦ record p { tx = (uart_meshtastic_tx p.tx payload).1 }
    | some ti ↦ handle_toradio p conn payload ti
  ]

  -- The write handler of src/ble_gatt.c, with the callback that `main` registers.
  unfoldable pub toradio_write : Proxy → Conn → Bytes → ℕ → WriteResult × Proxy
  unfolding on_toradio_ble
  toradio_write p conn buf offset =
      let lit = record p { ble = record (p.ble) { led_toradio_active = true } } in
      if not (offset == 0)
      then (invalid_offset, p)
      else (taken (length buf), if p.ble.toradio_handler then on_toradio_ble lit conn buf else lit)

  -- The keepalive's work item fires.
  unfoldable pub keepalive_fires : Proxy → Proxy
  keepalive_fires p =
      let (u, tx) = keepalive_work_handler pb p.upstream p.tx in record p { upstream = u; tx = tx }

  -- The session's start, over the state that it shares.
  unfoldable pub session_starts : ℕ → Proxy → Proxy
  session_starts rand p =
      let (u, cache, tx) = upstream_session_start pb rand p.upstream p.cache p.tx in
      record p { upstream = u; cache = cache; tx = tx }
