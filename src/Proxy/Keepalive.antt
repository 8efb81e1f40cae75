-- ===== src/Proxy/Keepalive.antt =====
-- The keepalive and its reply: src/upstream_session.c behind src/router.c.
use meshtastic_ble_proxy.Base.{
  ◌≡◌, ◌≢◌, refl, ◌∙◌, true, false, List, [], ◌∷◌, arith, if◌then◌else◌, Bytes, ok, All, subst, sym,
  ap,
}
use meshtastic_ble_proxy.Nanopb.{Nanopb, HasDistinctTags}
use meshtastic_ble_proxy.Proto.{proto_encode_heartbeat, encoded}
use meshtastic_ble_proxy.Ble.Queue.{ble_gatt_broadcast_fromradio}
use meshtastic_ble_proxy.Uart.{uart_meshtastic_tx}
use meshtastic_ble_proxy.Upstream.{
  fetching, keepalive_work_handler, keepalive_buf_size, upstream_swallow_live_queuestatus,
}
use meshtastic_ble_proxy.Upstream.Session.{Incoming}
use meshtastic_ble_proxy.Proxy.{
  Proxy, broadcast, deliver, swallow_or_broadcast, route, router_dispatch, keepalive_fires,
}

module _ (pb : Nanopb) where
  -- Frames from the node, routed one after the other.
  unfoldable pub routed : Proxy → List Incoming → Proxy
  routed p [] = p
  routed p (f ∷ fs) = routed (router_dispatch pb p f.payload f.info) fs

  abbrev IsQueueStatus : Incoming → Type 0
  IsQueueStatus f = f.info.which_variant ≡ pb.tags.queue_status_tag

  dispatch-other :
      (p : Proxy) (f : Incoming)
      → p.upstream.state ≢ fetching
      → f.info.which_variant ≢ pb.tags.queue_status_tag
      → (router_dispatch pb p f.payload f.info).upstream ≡ p.upstream
  unfolding router_dispatch route deliver
  dispatch-other p f st h = ground arith

  dispatch-queue_status :
      (p : Proxy) (f : Incoming)
      → HasDistinctTags pb.tags
      → p.upstream.state ≢ fetching
      → IsQueueStatus f
      → router_dispatch pb p f.payload f.info ≡ (
          if p.upstream.keepalive_pending
          then record p { upstream = record (p.upstream) { keepalive_pending = false } }
          else broadcast p f.payload)
  unfolding router_dispatch route swallow_or_broadcast upstream_swallow_live_queuestatus
  dispatch-queue_status p f d st h = ground (arith, d.fromradio.0)

  routed-other :
      (p : Proxy) (fs : List Incoming)
      → p.upstream.state ≢ fetching
      → All (λ f. f.info.which_variant ≢ pb.tags.queue_status_tag) fs
      → (routed p fs).upstream ≡ p.upstream
  unfolding routed
  routed-other p [] st h = refl
  routed-other p (f ∷ fs) st h =
      let e = dispatch-other p f st h.0 in
      routed-other (router_dispatch pb p f.payload f.info) fs
        (subst (λ u. u.state ≢ fetching) (sym e) st) h.1
      ∙ e

  fires :
      (p : Proxy) (buf : Bytes)
      → proto_encode_heartbeat pb p.upstream.keepalive_nonce keepalive_buf_size ≡ encoded buf
      → (uart_meshtastic_tx p.tx buf).0 ≡ ok
      → let p' = keepalive_fires pb p in
        (p'.upstream.keepalive_pending ≡ true) × (p'.upstream.state ≡ p.upstream.state)
  unfolding keepalive_fires keepalive_work_handler
  fires p buf enc sent = ground arith

  -- With distinct tags and outside the fetch, after a keepalive that was encoded and queued for the
  -- node, and whatever frames but queueStatus the node sends, the node's first queueStatus changes
  -- nothing that a phone can see, and the next one is broadcast: exactly one reply is swallowed for
  -- one keepalive.
  pub keepalive-swallows_one :
      (p : Proxy) (buf : Bytes) (others : List Incoming) (reply next : Incoming)
      → HasDistinctTags pb.tags
      → p.upstream.state ≢ fetching
      → proto_encode_heartbeat pb p.upstream.keepalive_nonce keepalive_buf_size ≡ encoded buf
      → (uart_meshtastic_tx p.tx buf).0 ≡ ok
      → All (λ f. f.info.which_variant ≢ pb.tags.queue_status_tag) others
      → IsQueueStatus reply
      → IsQueueStatus next
      → let before = routed (keepalive_fires pb p) others in
        ((routed before (reply ∷ [])).ble ≡ before.ble)
        × ((routed before (reply ∷ next ∷ [])).ble
            ≡ (ble_gatt_broadcast_fromradio before.ble next.payload).1)
  unfolding routed
  keepalive-swallows_one p buf others reply next d st enc sent h hr hn =
      let q = routed (keepalive_fires pb p) others in
      let (waits, same) = fires p buf enc sent in
      let kept : q.upstream ≡ (keepalive_fires pb p).upstream =
        routed-other (keepalive_fires pb p) others (λ e. st (sym same ∙ e)) h in
      let st' : q.upstream.state ≢ fetching =
        λ e. st (sym same ∙ ap (λ u. u.state) (sym kept) ∙ e) in
      let armed : q.upstream.keepalive_pending ≡ true =
        ap (λ u. u.keepalive_pending) kept ∙ waits in
      let e : router_dispatch pb q reply.payload reply.info
          ≡ record q { upstream = record (q.upstream) { keepalive_pending = false } } =
        dispatch-queue_status q reply d st' hr ∙ ground arith in
      let e' =
        dispatch-queue_status
          (record q { upstream = record (q.upstream) { keepalive_pending = false } }) next d st'
          hn in
      rw e (refl, ap (λ r. r.ble) e')
