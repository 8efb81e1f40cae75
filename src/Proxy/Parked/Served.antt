-- ===== src/Proxy/Parked/Served.antt =====
-- The phones that src/ble_gatt.c has parked, from the session's start to the end of its burst in
-- src/upstream_session.c.
use meshtastic_ble_proxy.Base.{
  ℕ, ◌+◌, ◌<◌, ◌≤◌, ◌≡◌, ◌≢◌, sym, subst, Bool, true, false, Option, some, List, [], ◌∷◌, ◌++◌,
  arith, length, map, Bytes, inl, inr, All, All-get_elem?, get_elem?, Option-cases,
}
use meshtastic_ble_proxy.Nanopb.{Nanopb, HasDistinctTags}
use meshtastic_ble_proxy.Proto.{proto_encode_config_complete, encoded}
use meshtastic_ble_proxy.ConfigCache.Frames.{frames}
use meshtastic_ble_proxy.ConfigCache.Segments.{segment}
use meshtastic_ble_proxy.Ble.State.{Conn, ProxyConn, pending, cc_frame_size, find_slot}
use meshtastic_ble_proxy.Ble.Connections.Slots.{slot_of, find_slot-some}
use meshtastic_ble_proxy.Ble.Reads.Replay.{fresh_reads}
use meshtastic_ble_proxy.Ble.Start.{ble_gatt_init}
use meshtastic_ble_proxy.Ble.Burst.Parked.{replay}
use meshtastic_ble_proxy.Ble.Table.{slot-IsSound}
use meshtastic_ble_proxy.Ble.Table.Parked.{connected-All, disconnected-All, node_reg-All, read-All}
use meshtastic_ble_proxy.Upstream.{fetching, live, is_pending, max_pending, upstream_set_serve_cb}
use meshtastic_ble_proxy.Upstream.Outcomes.{keepalive_cases}
use meshtastic_ble_proxy.Upstream.Session.{Incoming, IsEnd}
use meshtastic_ble_proxy.Proxy.{Proxy, router_dispatch, keepalive_fires}
use meshtastic_ble_proxy.Proxy.Serving.{burst_end-serves}
use meshtastic_ble_proxy.Proxy.Soundness.Steps.{
  Local, write, register, read, connect, leave, keepalive, start, init, set_callback, transmit,
  Step, from_node, transmitted, locally, IsReachable, next, reachable-IsSoundProxy,
}
use meshtastic_ble_proxy.Proxy.Phase.Steps.{reachable-InPhase}
use meshtastic_ble_proxy.Proxy.Parked.{Waits, Waits-IsStable, Remembers}
use meshtastic_ble_proxy.Proxy.Parked.Node.{from_node-Remembers}
use meshtastic_ble_proxy.Proxy.Parked.Phones.{write-Remembers}

-- The slot of a connection holds it.
slot_held :
    (q : Proxy) (conn : Conn) (pc : ProxyConn)
    → slot_of q.ble.conns conn ≡ some pc
    → (i : ℕ) × (get_elem? q.ble.conns i ≡ some pc) × (pc.conn ≡ some conn)
slot_held q conn pc at = elim (Option-cases (find_slot q.ble.conns conn)) [
  | inl e ↦ absurd (ground arith)
  | inr (i, e) ↦
      let (pc', here, held) = find_slot-some q.ble.conns conn i e in
      let same : pc' ≡ pc = ground arith in (i, rw same at here, rw same at held)
]

module _ (pb : Nanopb) (attr_read : Bytes → ℕ → ℕ → Option Bytes) where
  -- Whether a step starts the session.
  unfoldable pub starts : {p p' : Proxy} → Local pb attr_read p p' → Bool
  starts (start p rand) = true
  starts _ = false

  unfoldable pub is_start : {p p' : Proxy} → Step pb attr_read p p' → Bool
  unfolding starts
  is_start (locally p p' s) = starts s
  is_start _ = false

  -- Steps of the proxy, none of which starts the session.
  pub data Onward (p : Proxy) : Proxy → Type 0 where
    stay : Onward p p
    on : (q r : Proxy) → Onward p q → (s : Step pb attr_read q r) → is_start s ≡ false → Onward p r

  local-Remembers :
      (p p' : Proxy) (s : Local pb attr_read p p') → starts s ≡ false → Remembers p → Remembers p'
  unfolding starts upstream_set_serve_cb keepalive_fires ble_gatt_init
  local-Remembers _ _ (write p conn buf offset) e w = write-Remembers pb p conn buf offset w
  local-Remembers _ _ (register p conn buf offset) e w = λ r.
      node_reg-All (Waits p.upstream.pending) (Waits-IsStable p.upstream.pending) p.ble (w r) conn
        buf offset
  local-Remembers _ _ (read p conn len offset) e w = λ r.
      read-All (Waits p.upstream.pending) (Waits-IsStable p.upstream.pending) p.ble (w r) attr_read
        pb.tags p.cache conn len offset
  local-Remembers _ _ (connect p conn fails answer new) e w = λ r.
      connected-All (Waits p.upstream.pending) (Waits-IsStable p.upstream.pending) p.ble (w r) conn
        fails answer
  local-Remembers _ _ (leave p conn answer) e w = λ r.
      disconnected-All (Waits p.upstream.pending) (Waits-IsStable p.upstream.pending) p.ble (w r)
        conn answer
  local-Remembers _ _ (keepalive p) e w = λ r.
      let (waits, _) = keepalive_cases pb p.upstream p.tx in
      subst (λ cs. All (Waits cs) p.ble.conns) (sym waits) (w r)
  local-Remembers _ _ (start p rand) e w = absurd (ground arith)
  local-Remembers _ _ (init p a) e w =
      let same : (ble_gatt_init a p.ble).1.conns ≡ p.ble.conns = ground arith in
      λ r. subst (All (Waits p.upstream.pending)) (sym same) (w r)
  local-Remembers _ _ (set_callback p) e w = w
  local-Remembers _ _ (transmit p accepted) e w = w

  step-Remembers :
      (p p' : Proxy) (s : Step pb attr_read p p') → is_start s ≡ false → Remembers p → Remembers p'
  unfolding is_start
  step-Remembers _ _ (from_node p payload small) e w = from_node-Remembers pb p w payload
  step-Remembers _ _ (transmitted p) e w = w
  step-Remembers _ _ (locally p p' s) e w = local-Remembers p p' s e w

  onwards-Remembers : (p q : Proxy) → Onward p q → Remembers p → Remembers q
  onwards-Remembers p _ stay w = w
  onwards-Remembers p _ (on q r before s e) w =
      step-Remembers q r s e (onwards-Remembers p q before w)

  onwards-IsReachable :
      (p q : Proxy) → Onward p q → IsReachable pb attr_read p → IsReachable pb attr_read q
  onwards-IsReachable p _ stay w = w
  onwards-IsReachable p _ (on q r before s e) w = next q r (onwards-IsReachable p q before w) s

  none_parked-Waits :
      (cs : List ℕ) (conns : List ProxyConn)
      → All (λ pc. pc.state ≢ pending) conns
      → All (Waits cs) conns
  none_parked-Waits cs [] h = tt
  none_parked-Waits cs (pc ∷ pcs) h = (λ conn at st. absurd (h.0 st), none_parked-Waits cs pcs h.1)

  -- From a reachable state with no phone parked, and with any steps but a start of the session: a
  -- phone that is parked while the session fetches is served by the burst's end. The closing frame of
  -- the session's nonce, with a callback registered, makes the session live and the cache ready, and
  -- the phone, if fewer than six wait, is given by its reads from there on the cached frames of the
  -- segment that its nonce asks for, its closing frame, then nothing. Tags are distinct, and the
  -- closing frame encodes into at most 16 bytes.
  pub dispatch-serves_parked :
      (p q : Proxy)
      → IsReachable pb attr_read p
      → All (λ pc. pc.state ≢ pending) p.ble.conns
      → Onward p q
      → q.upstream.state ≡ fetching
      → q.upstream.serve_cb ≡ true
      → (f : Incoming) → IsEnd (replay pb) pb q.upstream.nonce f
      → HasDistinctTags pb.tags
      → (conn : Conn) (pc : ProxyConn) (cc_bytes : Bytes) → slot_of q.ble.conns conn ≡ some pc
      → pc.state ≡ pending
      → length q.upstream.pending < max_pending
      → proto_encode_config_complete pb pc.nonce cc_frame_size ≡ encoded cc_bytes
      → length cc_bytes ≤ cc_frame_size
      → let q' = router_dispatch pb q f.payload f.info in
        let seg = segment pb.tags pc.nonce (frames q.cache) in
        (pc' : ProxyConn) × (q'.upstream.state ≡ live)
        × (q'.upstream.pending ≡ [])
        × (q'.cache.ready ≡ true)
        × (slot_of q'.ble.conns conn ≡ some pc')
        × ((fresh_reads pb.tags q'.cache (length seg + 2) pc').0
            ≡ map (λ f. f.bytes) seg ++ cc_bytes ∷ [] ∷ [])
  dispatch-serves_parked p q reachable none_parked onward st cb f end d conn pc cc_bytes at parked
        few enc le =
      let reached = onwards-IsReachable p q onward reachable in
      let w = reachable-IsSoundProxy pb attr_read q reached in
      let phase = reachable-InPhase pb attr_read q reached in
      let unpublished : q.cache.ready ≡ false = ground (arith, phase.published) in
      let remembers : Remembers q =
        onwards-Remembers p q onward
          (λ _. none_parked-Waits p.upstream.pending p.ble.conns none_parked) in
      let (i, there, held) = slot_held q conn pc at in
      let waits : Waits q.upstream.pending pc =
        All-get_elem? (Waits q.upstream.pending) q.ble.conns i pc (remembers unpublished) there in
      let listed : is_pending conn q.upstream.pending ≡ true = elim (waits conn held parked) [
        | inl h ↦ h
        | inr full ↦ absurd (omega arith)
      ] in
      let sound = slot-IsSound q.ble.conns q.ble.active_conn_count w.slots i pc there in
      burst_end-serves pb q f st cb w.servable.0 end conn pc cc_bytes d w.once listed at
        sound.closing enc le
