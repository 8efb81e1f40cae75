-- ===== src/Proxy/Phase/Steps.antt =====
-- The phases of the session in src/upstream_session.c over the steps of the proxy.
use meshtastic_ble_proxy.Base.{
  ℕ, ◌≡◌, ◌==◌, refl, sym, subst, Bool, true, false, not, arith, if◌then◌else◌, Option, Bytes,
  length, ◌⊎◌, inl, inr,
}
use meshtastic_ble_proxy.Nanopb.{Nanopb}
use meshtastic_ble_proxy.ConfigCache.{cache_begin, cache_at_boot}
use meshtastic_ble_proxy.Ble.State.{Conn}
use meshtastic_ble_proxy.Ble.Connections.{WriteResult, taken, invalid_offset}
use meshtastic_ble_proxy.Upstream.{
  fetching, keepalive_work_handler, upstream_session_start, upstream_at_boot, upstream_set_serve_cb,
}
use meshtastic_ble_proxy.Proxy.{
  Proxy, proxy_at_boot, on_toradio_ble, toradio_write, keepalive_fires, session_starts,
}
use meshtastic_ble_proxy.Proxy.Soundness.Steps.{
  Local, write, register, read, connect, leave, keepalive, start, init, set_callback, transmit,
  Step, from_node, transmitted, locally, IsReachable, boots, next,
}
use meshtastic_ble_proxy.Proxy.Phase.{Moves, stays, begins, InPhase, Follow, if-Follow}
use meshtastic_ble_proxy.Proxy.Phase.Node.{from_node-Follow}
use meshtastic_ble_proxy.Proxy.Phase.Phones.{on_toradio-Follow}

module _ (pb : Nanopb) where
  keepalive-Follow :
      (p : Proxy) → InPhase p.upstream p.cache → Follow p.upstream.state (keepalive_fires pb p)
  unfolding keepalive_fires keepalive_work_handler
  keepalive-Follow p w =
      let u = (keepalive_work_handler pb p.upstream p.tx).0 in
      let same : u.state ≡ p.upstream.state = ground arith in
      (
        record {
          settled = ground (arith, w.settled);
          published = λ ready. ground (arith, w.published ready);
          plain = ground (arith, w.plain);
          armed = ground (arith, w.armed);
          scheduled = ground (arith, w.scheduled);
        },
        subst (Moves p.upstream.state) (sym same) (stays p.upstream.state),
      )

  start-Follow :
      (rand : ℕ) (p : Proxy)
      → InPhase p.upstream p.cache
      → Follow p.upstream.state (session_starts pb rand p)
  unfolding session_starts upstream_session_start cache_begin
  start-Follow rand p w =
      let (u, cache, tx) = upstream_session_start pb rand p.upstream p.cache p.tx in
      let moved : (u.state ≡ p.upstream.state) ⊎ (u.state ≡ fetching) = ground arith in
      (
        record {
          settled = ground (arith, w.settled);
          published = λ ready. ground (arith, w.published);
          plain = λ ne. ground arith;
          armed = ground (arith, w.armed);
          scheduled = ground (arith, w.scheduled);
        },
        elim moved [
          | inl e ↦ subst (Moves p.upstream.state) (sym e) (stays p.upstream.state)
          | inr e ↦ subst (Moves p.upstream.state) (sym e) (begins p.upstream.state)
        ],
      )

  write-Follow :
      (p : Proxy) (conn : Conn) (buf : Bytes) (offset : ℕ)
      → InPhase p.upstream p.cache
      → Follow p.upstream.state (toradio_write pb p conn buf offset).1
  unfolding toradio_write
  write-Follow p conn buf offset w = go (not (offset == 0))
    where
      lit : Proxy
      lit = record p { ble = record (p.ble) { led_toradio_active = true } }

      go :
          (bad : Bool)
          → Follow p.upstream.state (
              let r : WriteResult × Proxy = if bad then (invalid_offset, p) else (
                taken (length buf),
                if p.ble.toradio_handler then on_toradio_ble pb lit conn buf else lit,
              ) in
              r.1)
      go true = (w, stays p.upstream.state)
      go false =
          if-Follow p.upstream.state _ _ p.ble.toradio_handler (on_toradio-Follow pb lit w conn buf)
            (w, stays p.upstream.state)

  module _ (attr_read : Bytes → ℕ → ℕ → Option Bytes) where
    local-Follow :
        (p p' : Proxy)
        → Local pb attr_read p p'
        → InPhase p.upstream p.cache
        → Follow p.upstream.state p'
    unfolding upstream_set_serve_cb
    local-Follow _ _ (write p conn buf offset) w = write-Follow p conn buf offset w
    local-Follow _ _ (register p conn buf offset) w = (w, stays p.upstream.state)
    local-Follow _ _ (read p conn len offset) w = (w, stays p.upstream.state)
    local-Follow _ _ (connect p conn fails answer new) w = (w, stays p.upstream.state)
    local-Follow _ _ (leave p conn answer) w = (w, stays p.upstream.state)
    local-Follow _ _ (keepalive p) w = keepalive-Follow p w
    local-Follow _ _ (start p rand) w = start-Follow rand p w
    local-Follow _ _ (init p a) w = (w, stays p.upstream.state)
    local-Follow _ _ (set_callback p) w = (w, stays p.upstream.state)
    local-Follow _ _ (transmit p accepted) w = (w, stays p.upstream.state)

    step-Follow :
        (p p' : Proxy)
        → Step pb attr_read p p'
        → InPhase p.upstream p.cache
        → Follow p.upstream.state p'
    step-Follow _ _ (from_node p payload small) w = from_node-Follow pb p w payload
    step-Follow _ _ (transmitted p) w = (w, stays p.upstream.state)
    step-Follow _ _ (locally p p' step) w = local-Follow p p' step w

    at_boot-InPhase : InPhase proxy_at_boot.upstream proxy_at_boot.cache
    unfolding proxy_at_boot upstream_at_boot cache_at_boot
    at_boot-InPhase = record {
      settled = λ e. ground arith;
      published = λ e. ground arith;
      plain = λ ne. absurd (ne refl);
      armed = λ ne. absurd (ne refl);
      scheduled = λ e. ground arith;
    }

    pub reachable-InPhase : (p : Proxy) → IsReachable pb attr_read p → InPhase p.upstream p.cache
    reachable-InPhase _ boots = at_boot-InPhase
    reachable-InPhase _ (next p p' before step) =
        (step-Follow p p' step (reachable-InPhase p before)).0

    -- In every state that the proxy reaches, whatever the node, the phones and the drivers do: the
    -- session is never seen in its transient state, where the cache is published it is live and no
    -- phone waits, and once it has started its nonce is neither 0 nor 1 and its keepalive is armed and
    -- scheduled; and with every further step it stays, or goes over to the fetch, or goes from the
    -- fetch to live.
    pub reachable-Follow :
        (p p' : Proxy)
        → IsReachable pb attr_read p
        → Step pb attr_read p p'
        → InPhase p.upstream p.cache × Moves p.upstream.state p'.upstream.state
    reachable-Follow p p' before step =
        let w = reachable-InPhase p before in (w, (step-Follow p p' step w).1)
