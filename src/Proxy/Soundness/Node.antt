-- ===== src/Proxy/Soundness/Node.antt =====
-- A frame from the node keeps the invariant of the whole proxy.
use meshtastic_ble_proxy.Base.{
  ℕ, ◌≤◌, sym, Bool, Option, none, some, List, [], ◌∷◌, arith, if◌then◌else◌, length, Bytes, All,
  All-append, Bool-cases, inl, inr, subst,
}
use meshtastic_ble_proxy.Nanopb.{Nanopb, Tags}
use meshtastic_ble_proxy.Proto.{FromradioInfo, proto_decode_fromradio}
use meshtastic_ble_proxy.ConfigCache.{Cache, cache_add_frame, cache_mark_ready}
use meshtastic_ble_proxy.ConfigCache.Layout.{cache_add_frame-IsValid, mark_ready-IsValid}
use meshtastic_ble_proxy.ConfigCache.Frames.{Frame, frames, add, has_room, frames-add_frame}
use meshtastic_ble_proxy.Ble.State.{Ble}
use meshtastic_ble_proxy.Ble.Queue.Fifo.{IsPacket}
use meshtastic_ble_proxy.Ble.Reads.Bounds.{IsServable}
use meshtastic_ble_proxy.Ble.Burst.Parked.{replay}
use meshtastic_ble_proxy.Ble.Table.Operations.{IsValidBle, replay-IsValidBle}
use meshtastic_ble_proxy.Upstream.{
  Upstream, UpstreamState, boot, fetching, cache_ready, live, consume, max_pending,
}
use meshtastic_ble_proxy.Upstream.Waiting.{IsOnce}
use meshtastic_ble_proxy.Upstream.Outcomes.{on_fromradio_cases, finish-keeps}
use meshtastic_ble_proxy.Proxy.{Proxy, broadcast, route, offer, router_dispatch, on_fromradio_uart}
use meshtastic_ble_proxy.Proxy.Soundness.{
  IsSoundProxy, if-IsSound, broadcast-IsSound, route-IsSound,
}

add-small :
    (fs : List Frame) (f : Frame)
    → All (λ g. IsPacket g.bytes) fs
    → IsPacket f.bytes
    → All (λ g. IsPacket g.bytes) (add fs f)
add-small fs f h k = elim (Bool-cases (has_room fs f)) [
  | inl e ↦ rw (e, add) (All-append (λ g. IsPacket g.bytes) fs (f ∷ []) h (k, tt))
  | inr e ↦ rw (e, add) h
]

add_frame-IsServable :
    (tags : Tags) (cache : Cache) (raw : Bytes) (variant : ℕ)
    → IsServable tags cache
    → IsPacket raw
    → IsServable tags (cache_add_frame tags cache raw variant).1
add_frame-IsServable tags cache raw variant v small = (
  cache_add_frame-IsValid tags cache raw variant v.0,
  subst (All (λ g. IsPacket g.bytes)) (sym ((frames-add_frame tags cache v.0 raw variant).1))
      (add-small (frames cache) (record { bytes = raw; variant = variant }) v.1 small),
)

module _ (pb : Nanopb) (p : Proxy) (w : IsSoundProxy pb p) where
  -- The session's part.
  offer-IsSound :
      (raw : Bytes) (info : FromradioInfo) → IsPacket raw → IsSoundProxy pb (offer pb p raw info).1
  unfolding offer consume cache_mark_ready
  offer-IsSound raw info small =
      elim (on_fromradio_cases (replay pb) pb p.upstream p.cache p.ble raw info) [
        | inl e ↦ subst joined (sym e) w
        | inr (inl e) ↦ subst joined (sym e) (record {
          slots = w.slots;
          servable = add_frame-IsServable pb.tags p.cache raw info.which_variant w.servable small;
          once = w.once;
          few = w.few;
          tx = w.tx;
        })
        | inr (inr (nonce, e)) ↦ subst joined (sym e) (
            let (none_wait, ready, v) =
              finish-keeps (replay pb) pb IsValidBle (λ conn b. replay-IsValidBle pb b conn 0)
                p.upstream p.cache p.ble (length raw) info.which_variant nonce w.slots in
            record {
              slots = v;
              servable =
                  subst (IsServable pb.tags) (sym ready)
                    (mark_ready-IsValid pb.tags p.cache w.servable.0, w.servable.1);
              once = subst IsOnce (sym none_wait) tt;
              few = subst (λ cs. length cs ≤ max_pending) (sym none_wait) (omega arith);
              tx = w.tx;
            })
      ]
    where
      joined : Bool × Upstream × Cache × Ble → Type 0
      joined (c, u, cache, ble) =
          IsSoundProxy pb (record p { upstream = u; cache = cache; ble = ble })

  pub dispatch-IsSound :
      (raw : Bytes) (info : FromradioInfo)
      → IsPacket raw
      → IsSoundProxy pb (router_dispatch pb p raw info)
  unfolding router_dispatch
  dispatch-IsSound raw info small = go p.upstream.state
    where
      p' : Proxy
      p' = (offer pb p raw info).1

      after : IsSoundProxy pb (if (offer pb p raw info).0 then p' else route pb p' raw info)
      after =
          if-IsSound (offer pb p raw info).0 (offer-IsSound raw info small)
            (route-IsSound pb p' (offer-IsSound raw info small) raw info)

      go :
          (st : UpstreamState)
          → IsSoundProxy pb (elim st [
            | fetching ↦
                let (consumed, q) = offer pb p raw info in
                if consumed then q else route pb q raw info
            | _ ↦ route pb p raw info
          ])
      go boot = route-IsSound pb p w raw info
      go fetching = after
      go cache_ready = route-IsSound pb p w raw info
      go live = route-IsSound pb p w raw info

  -- A frame of at most 512 bytes.
  pub from_node-IsSound :
      (payload : Bytes) → IsPacket payload → IsSoundProxy pb (on_fromradio_uart pb p payload)
  unfolding on_fromradio_uart
  from_node-IsSound payload small = go (proto_decode_fromradio pb payload)
    where
      go :
          (decoded : Option FromradioInfo)
          → IsSoundProxy pb (elim decoded [
            | none ↦ broadcast p payload
            | some info ↦ router_dispatch pb p payload info
          ])
      go none = broadcast-IsSound pb p w payload
      go (some info) = dispatch-IsSound payload info small
