-- ===== src/Upstream/Outcomes.antt =====
-- What can come of a frame in src/upstream_session.c, and what every callback that serves phones keeps.
use meshtastic_ble_proxy.Base.{
  ℕ, ◌%◌, ◌^◌, take, ◌≡◌, refl, arith, ◌==◌, if◌then◌else◌, List, [], ◌∷◌, Bytes, Bool, true, false,
  length, ◌⊎◌, inl, inr, Bool-cases, Option-cases,
}
use meshtastic_ble_proxy.Nanopb.{Nanopb, Encoded, written, failed}
use meshtastic_ble_proxy.Uart.{Tx, uart_meshtastic_tx}
use meshtastic_ble_proxy.Proto.{
  FromradioInfo, proto_encode_heartbeat, EncodeResult, encoded, encode_failed,
}
use meshtastic_ble_proxy.ConfigCache.{Cache, cache_mark_ready, cache_begin}
use meshtastic_ble_proxy.Upstream.{
  Upstream, UpstreamState, fetching, cache_ready, live, consume, finish, upstream_on_fromradio,
  decode_config_complete_nonce, serve_each, serve_one_pending, serve_pending_phones,
  upstream_on_pending_phone, keepalive_work_handler, keepalive_buf_size, upstream_session_start,
  want_config_message, plain_nonce,
}
use meshtastic_ble_proxy.Upstream.Phase0.{phase0_account}

module _ {S : Type 0} (serve : ℕ → ℕ → S → S) (pb : Nanopb) where
  -- All that can come of a frame: left to the router, consumed, or the burst's end.
  pub on_fromradio_cases :
      (u : Upstream) (cache : Cache) (s : S) (payload : Bytes) (info : FromradioInfo)
      → let r = upstream_on_fromradio serve pb u cache s payload info in
        let c = consume pb.tags u cache payload info.which_variant in
        (r ≡ (false, u, cache, s))
        ⊎ ((r ≡ (true, c.0, c.1, s))
            ⊎ ((nonce : ℕ) × (let e =
                    finish serve pb u cache s (length payload) info.which_variant nonce in
                  r ≡ (true, e.0, e.1, e.2))))
  unfolding upstream_on_fromradio
  on_fromradio_cases u cache s payload info = elim (Bool-cases (is_fetching u.state)) [
    | inr other ↦ inl (ground arith)
    | inl fetches ↦ elim (Bool-cases (info.which_variant == pb.tags.packet_tag)) [
      | inl packet ↦ inl (ground arith)
      | inr kept ↦ elim (Bool-cases (info.which_variant == pb.tags.config_complete_id_tag)) [
        | inr frame ↦ inr (inl (ground arith))
        | inl closes ↦ elim (Option-cases (decode_config_complete_nonce pb payload)) [
          | inl e ↦ inr (inl (ground arith))
          | inr (nonce, e) ↦ elim (Bool-cases (nonce == u.nonce)) [
            | inl ours ↦ inr (inr (nonce, ground arith))
            | inr theirs ↦ inr (inl (ground arith))
          ]
        ]
      ]
    ]
  ]
    where
      is_fetching : UpstreamState → Bool
      is_fetching fetching = true
      is_fetching _ = false

  -- The session at the burst's end.
  pub finish-session :
      (u : Upstream) (cache : Cache) (s : S) (len variant nonce : ℕ)
      → (finish serve pb u cache s len variant nonce).0 ≡ record u {
        stats = record (phase0_account pb.tags u.stats variant len) { config_complete_id = nonce };
        pending = [];
        state = live;
      }
  unfolding finish serve_pending_phones
  finish-session u cache s len variant nonce = refl

  module _ (P : S → Type 0) (keeps : (conn : ℕ) (s : S) → P s → P (serve conn 0 s)) where
    serve_one-keeps : (u : Upstream) (conn : ℕ) (s : S) → P s → P (serve_one_pending serve u conn s)
    unfolding serve_one_pending
    serve_one-keeps u conn s h = go u.serve_cb
      where
        go : (cb : Bool) → P (if cb then serve conn 0 s else s)
        go true = keeps conn s h
        go false = h

    serve_each-keeps :
        (u : Upstream) (conns : List ℕ) (s : S) → P s → P (serve_each serve u conns s)
    unfolding serve_each
    serve_each-keeps u [] s h = h
    serve_each-keeps u (conn ∷ conns) s h =
        serve_each-keeps u conns (serve_one_pending serve u conn s) (serve_one-keeps u conn s h)

    -- At the burst's end no phone waits, the cache is published, and what the callback keeps holds.
    pub finish-keeps :
        (u : Upstream) (cache : Cache) (s : S) (len variant nonce : ℕ)
        → P s
        → let (u', cache', s') = finish serve pb u cache s len variant nonce in
          (u'.pending ≡ []) × (cache' ≡ cache_mark_ready cache) × P s'
    unfolding finish serve_pending_phones
    finish-keeps u cache s len variant nonce h =
        let ready : Upstream = record u {
          stats = record (phase0_account pb.tags u.stats variant len) {
            config_complete_id = nonce;
          };
          state = cache_ready;
        } in
        (refl, refl, serve_each-keeps ready u.pending s h)

    pub on_pending-keeps :
        (cache : Cache) (u : Upstream) (conn : ℕ) (s : S)
        → P s
        → P (upstream_on_pending_phone serve cache u conn s).1
    unfolding upstream_on_pending_phone
    on_pending-keeps cache u conn s h = ground (arith, serve_one-keeps u conn s h)

-- A firing of the keepalive leaves the phones that wait, and offers the transmit queue a packet or
-- nothing.
pub keepalive_cases :
    (pb : Nanopb) (u : Upstream) (tx : Tx)
    → let (u', tx') = keepalive_work_handler pb u tx in
      (u'.pending ≡ u.pending)
      × ((tx' ≡ tx) ⊎ ((buf : Bytes) × (tx' ≡ (uart_meshtastic_tx tx buf).1)))
unfolding keepalive_work_handler
keepalive_cases pb u tx =
    (ground arith, go (proto_encode_heartbeat pb u.keepalive_nonce keepalive_buf_size) refl)
  where
    go :
        (r : EncodeResult)
        → proto_encode_heartbeat pb u.keepalive_nonce keepalive_buf_size ≡ r
        → let tx' = (keepalive_work_handler pb u tx).1 in
          (tx' ≡ tx) ⊎ ((buf : Bytes) × (tx' ≡ (uart_meshtastic_tx tx buf).1))
    go (encode_failed e) h = inl (ground arith)
    go (encoded buf) h = inr (buf, ground arith)

-- A start does nothing but draw a nonce, or it empties the cache and the list of phones that wait
-- and offers the transmit queue a packet.
pub start_cases :
    (pb : Nanopb) (rand : ℕ) (u : Upstream) (cache : Cache) (tx : Tx)
    → let (u', cache', tx') = upstream_session_start pb rand u cache tx in
      ((u'.pending ≡ u.pending) × (cache' ≡ cache) × (tx' ≡ tx))
      ⊎ ((buf : Bytes) × (u'.pending ≡ [])
          × (cache' ≡ cache_begin cache)
          × (tx' ≡ (uart_meshtastic_tx tx buf).1))
unfolding upstream_session_start
start_cases pb rand u cache tx =
    go (pb.encode_toradio (want_config_message pb (plain_nonce rand)) pb.toradio_size) refl
  where
    go :
        (r : Encoded)
        → pb.encode_toradio (want_config_message pb (plain_nonce rand)) pb.toradio_size ≡ r
        → let (u', cache', tx') = upstream_session_start pb rand u cache tx in
          ((u'.pending ≡ u.pending) × (cache' ≡ cache) × (tx' ≡ tx))
          ⊎ ((buf : Bytes) × (u'.pending ≡ [])
              × (cache' ≡ cache_begin cache)
              × (tx' ≡ (uart_meshtastic_tx tx buf).1))
    go (failed n) h = inl (ground arith, ground arith, ground arith)
    go (written buf) h =
        inr (take (length buf % 2 ^ 16) buf, ground arith, ground arith, ground arith)
