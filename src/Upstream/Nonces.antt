-- ===== src/Upstream/Nonces.antt =====
-- The nonces of src/upstream_session.c: 0 and 1 are special to the node and are never sent.
use meshtastic_ble_proxy.Base.{ℕ, zero, suc, ◌^◌, ◌≤◌, ◌<◌, ◌≡◌, refl, arith, Bytes, ◌⊎◌, inl, inr}
use meshtastic_ble_proxy.Nanopb.{Nanopb}
use meshtastic_ble_proxy.ConfigCache.{Cache}
use meshtastic_ble_proxy.Uart.{Tx, uart_meshtastic_tx}
use meshtastic_ble_proxy.Proto.{proto_encode_heartbeat, EncodeResult, encoded, encode_failed}
use meshtastic_ble_proxy.Upstream.{
  Upstream, upstream_session_start, plain_nonce, keepalive_work_handler, keepalive_buf_size,
}

-- A nonce that the node takes for a plain one.
abbrev pub IsPlain : ℕ → Type 0
IsPlain n = (2 ≤ n) × (n < 2 ^ 32)

plain_nonce-IsPlain : (rand : ℕ) → rand < 2 ^ 32 → IsPlain (plain_nonce rand)
plain_nonce-IsPlain rand h = ground arith

-- Whatever word the generator gives, the session's nonce is plain: the word itself, or 2 in
-- place of 0 and 1.
pub start-IsPlain :
    (pb : Nanopb) (rand : ℕ) (u : Upstream) (cache : Cache) (tx : Tx)
    → rand < 2 ^ 32
    → let (u', cache', tx') = upstream_session_start pb rand u cache tx in
      IsPlain u'.nonce × (((rand < 2) × (u'.nonce ≡ 2)) ⊎ ((2 ≤ rand) × (u'.nonce ≡ rand)))
unfolding upstream_session_start
start-IsPlain pb rand u cache tx h = ground arith

-- `n` firings of the keepalive.
pub keepalive_runs : Nanopb → ℕ → Upstream → Tx → Upstream × Tx
keepalive_runs pb zero u tx = (u, tx)
keepalive_runs pb (suc n) u tx =
    let (u', tx') = keepalive_work_handler pb u tx in keepalive_runs pb n u' tx'

-- What one firing does to the transmit queue: nothing, or it offers the encoding of a heartbeat
-- whose nonce is plain.
abbrev pub SendsPlain : Nanopb → Tx → Tx → Type 0
SendsPlain pb tx tx' =
    (tx' ≡ tx)
    ⊎ ((n : ℕ) × (buf : Bytes) × IsPlain n
        × (proto_encode_heartbeat pb n keepalive_buf_size ≡ encoded buf)
        × (tx' ≡ (uart_meshtastic_tx tx buf).1))

work_handler-IsPlain :
    (pb : Nanopb) (u : Upstream) (tx : Tx)
    → IsPlain u.keepalive_nonce
    → let (u', tx') = keepalive_work_handler pb u tx in
      IsPlain u'.keepalive_nonce × SendsPlain pb tx tx'
unfolding keepalive_work_handler
work_handler-IsPlain pb u tx h =
    (ground arith, sends (proto_encode_heartbeat pb u.keepalive_nonce keepalive_buf_size) refl)
  where
    sends :
        (r : EncodeResult)
        → proto_encode_heartbeat pb u.keepalive_nonce keepalive_buf_size ≡ r
        → SendsPlain pb tx (keepalive_work_handler pb u tx).1
    sends (encode_failed e) h' = inl (ground arith)
    sends (encoded buf) h' = inr (u.keepalive_nonce, buf, h, h', ground arith)

runs-IsPlain :
    (pb : Nanopb) (n : ℕ) (u : Upstream) (tx : Tx)
    → IsPlain u.keepalive_nonce
    → IsPlain (keepalive_runs pb n u tx).0.keepalive_nonce
unfolding keepalive_runs
runs-IsPlain pb zero u tx h = h
runs-IsPlain pb (suc n) u tx h =
    let (u', tx') = keepalive_work_handler pb u tx in
    runs-IsPlain pb n u' tx' (work_handler-IsPlain pb u tx h).0

-- However often the keepalive has fired, also across the wrap of its counter, the next firing offers
-- the transmit queue nothing, or a heartbeat whose nonce is plain.
pub keepalive-SendsPlain :
    (pb : Nanopb) (n : ℕ) (u : Upstream) (tx : Tx)
    → IsPlain u.keepalive_nonce
    → let (u', tx') = keepalive_runs pb n u tx in
      SendsPlain pb tx' (keepalive_work_handler pb u' tx').1
keepalive-SendsPlain pb n u tx h =
    let (u', tx') = keepalive_runs pb n u tx in
    (work_handler-IsPlain pb u' tx' (runs-IsPlain pb n u tx h)).1
