-- ===== src/Upstream.antt =====
-- src/upstream_session.c and src/upstream_session.h: the proxy's one config session with the node.
-- The session names phones by their connection only and reaches them through the callback that is
-- registered with it: `serve` below, over whatever state `S` the callback acts on.
pub mod Phase0
pub mod Stats
pub mod Session
pub mod Outcomes
pub mod Nonces
pub mod Waiting
pub mod Codec
mod Tests
use meshtastic_ble_proxy.Base.{
  ℕ, zero, suc, ◌+◌, ◌*◌, ◌%◌, ◌^◌, Bool, true, false, ◌&&◌, ◌||◌, Option, none, some, List, [],
  ◌∷◌, ◌++◌, ltb, leb, ◌==◌, if◌then◌else◌, length, take, Bytes, Rc, ok, err,
}
use meshtastic_ble_proxy.Nanopb.{Nanopb, Tags, ToRadio, FromRadio, Encoded, written, failed}
use meshtastic_ble_proxy.Proto.{
  FromradioInfo, toradio_init_zero, proto_encode_heartbeat, EncodeResult, encoded, encode_failed,
}
use meshtastic_ble_proxy.ConfigCache.{
  Cache, cache_begin, cache_add_frame, cache_mark_ready, cache_is_ready,
}
use meshtastic_ble_proxy.Upstream.Phase0.{Phase0Stats, phase0_reset, phase0_account}
use meshtastic_ble_proxy.Uart.{Tx, uart_meshtastic_tx}

-- `enum upstream_state`
pub data UpstreamState : Type 0 where
  boot fetching cache_ready live : UpstreamState

-- CONFIG_BT_MAX_CONN of prj.conf, the size of `s_pending`
abbrev pub max_pending : ℕ
max_pending = 6

-- The module's static variables but the scratch struct. `pending` is the `s_pending_count` entries
-- in use of `s_pending`; `serve_cb` is whether a callback is registered; `keepalive_scheduled` is
-- whether the delayable work waits for its interval.
pub record Upstream : Type 0 where
  pub state : UpstreamState
  pub nonce : ℕ
  pub pending : List ℕ
  pub serve_cb : Bool
  pub keepalive_armed : Bool
  pub keepalive_nonce : ℕ
  pub keepalive_pending : Bool
  pub keepalive_scheduled : Bool
  pub stats : Phase0Stats

unfoldable pub upstream_at_boot : Upstream
unfolding phase0_reset
upstream_at_boot = record {
  state = boot;
  nonce = 0;
  pending = [];
  serve_cb = false;
  keepalive_armed = false;
  keepalive_nonce = 2;
  keepalive_pending = false;
  keepalive_scheduled = false;
  stats = phase0_reset;
}

abbrev pub upstream_get_state : Upstream → UpstreamState
upstream_get_state u = u.state

-- The forced nonce of a random word.
abbrev pub plain_nonce : ℕ → ℕ
plain_nonce rand = if (rand == 0) || (rand == 1) then 2 else rand

abbrev pub keepalive_buf_size : ℕ
keepalive_buf_size = 16

module _ (pb : Nanopb) where
  abbrev pub want_config_message : ℕ → ToRadio
  want_config_message nonce = record toradio_init_zero {
    which_payload_variant = pb.tags.toradio_want_config_id_tag;
    want_config_id = nonce;
  }

  -- The part behind a successful encoding. `uart_meshtastic_tx` is given the 16-bit length.
  abbrev pub start_with : Upstream → Cache → Tx → Bytes → Upstream × Cache × Tx
  start_with u cache tx buf =
      let reset = record u { stats = phase0_reset; pending = [] } in
      let (rc, tx') = uart_meshtastic_tx tx (take (length buf % 2 ^ 16) buf) in
      elim rc [
        | err e ↦ (reset, cache_begin cache, tx')
        | ok ↦ (
          record reset { state = fetching; keepalive_armed = true; keepalive_scheduled = true },
          cache_begin cache,
          tx',
        )
      ]

  -- `rand` is what `sys_rand32_get` returns.
  unfoldable pub upstream_session_start : ℕ → Upstream → Cache → Tx → Upstream × Cache × Tx
  upstream_session_start rand u cache tx =
      let named = record u { nonce = plain_nonce rand } in
      elim (pb.encode_toradio (want_config_message (plain_nonce rand)) pb.toradio_size) [
        | failed n ↦ (named, cache, tx)
        | written buf ↦ start_with named cache tx buf
      ]

  -- `none` is the result `false`.
  unfoldable pub decode_config_complete_nonce : Bytes → Option ℕ
  decode_config_complete_nonce payload = elim (pb.decode_fromradio payload) [
    | none ↦ none
    | some m ↦
        if m.which_payload_variant == pb.tags.config_complete_id_tag
        then some m.config_complete_id
        else none
  ]

  -- The wrap guard of the keepalive's counter.
  abbrev pub next_keepalive_nonce : ℕ → ℕ
  next_keepalive_nonce n = let n' = (n + 1) % 2 ^ 32 in if (n' == 0) || (n' == 1) then 2 else n'

  -- The transmission of an encoded heartbeat: the flag is set before it, and cleared if it fails.
  abbrev pub send_keepalive : Upstream → Tx → Bytes → Upstream × Tx
  send_keepalive u tx buf =
      let (rc, tx') = uart_meshtastic_tx tx buf in
      elim rc [
        | ok ↦ (record u { keepalive_pending = true }, tx')
        | err e ↦ (record u { keepalive_pending = false }, tx')
      ]

  -- The handler up to its last line.
  abbrev pub keepalive_round : Upstream → Tx → Upstream × Tx
  keepalive_round u tx =
      let u' = record u { keepalive_nonce = next_keepalive_nonce u.keepalive_nonce } in
      elim (proto_encode_heartbeat pb u.keepalive_nonce keepalive_buf_size) [
        | encode_failed e ↦ (u', tx)
        | encoded buf ↦ send_keepalive u' tx buf
      ]

  -- The delayable work is off its schedule while it runs, and the last line schedules it again.
  unfoldable pub keepalive_work_handler : Upstream → Tx → Upstream × Tx
  keepalive_work_handler u tx =
      let (u', tx') = keepalive_round (record u { keepalive_scheduled = false }) tx in
      (record u' { keepalive_scheduled = true }, tx')

-- A frame of the burst: accounted, offered to the cache, and consumed in any case.
unfoldable pub consume : Tags → Upstream → Cache → Bytes → ℕ → Upstream × Cache
consume tags u cache payload variant = (
  record u { stats = phase0_account tags u.stats variant (length payload) },
  (cache_add_frame tags cache payload variant).1,
)

unfoldable pub upstream_set_serve_cb : Upstream → Upstream
upstream_set_serve_cb u = record u { serve_cb = true }

unfoldable pub upstream_keepalive_reschedule : Upstream → Upstream
upstream_keepalive_reschedule u =
    if u.keepalive_armed then record u { keepalive_scheduled = true } else u

unfoldable pub upstream_swallow_live_queuestatus : Upstream → Bool × Upstream
upstream_swallow_live_queuestatus u =
    if u.keepalive_pending then (true, record u { keepalive_pending = false }) else (false, u)

-- `s_pending[i] == conn` for some `i`
unfoldable pub is_pending : ℕ → List ℕ → Bool
is_pending conn [] = false
is_pending conn (c ∷ cs) = (c == conn) || is_pending conn cs

module _ {S : Type 0} (serve : ℕ → ℕ → S → S) where
  -- The nonce 0 tells the callback to use the stored one.
  pub serve_one_pending : Upstream → ℕ → S → S
  serve_one_pending u conn s = if u.serve_cb then serve conn 0 s else s

  serve_each : Upstream → List ℕ → S → S
  unfolding serve_one_pending
  serve_each u [] s = s
  serve_each u (conn ∷ conns) s = serve_each u conns (serve_one_pending u conn s)

  pub serve_pending_phones : Upstream → S → Upstream × S
  unfolding serve_each
  serve_pending_phones u s = (record u { pending = [] }, serve_each u u.pending s)

  -- The array's entries in use, with a connection added unless it is there or the array is full.
  unfoldable pub upstream_on_pending_phone : Cache → Upstream → ℕ → S → Upstream × S
  unfolding serve_one_pending is_pending
  upstream_on_pending_phone cache u conn s =
      if cache_is_ready cache
      then (u, serve_one_pending u conn s)
      else if is_pending conn u.pending
      then (u, s)
      else if leb max_pending (length u.pending)
      then (u, s)
      else (record u { pending = u.pending ++ conn ∷ [] }, s)

  module _ (pb : Nanopb) where
    -- The closing frame of our own burst.
    pub finish : Upstream → Cache → S → ℕ → ℕ → ℕ → Upstream × Cache × S
    finish u cache s len variant nonce =
        let accounted = phase0_account pb.tags u.stats variant len in
        let ready = record u {
          stats = record accounted { config_complete_id = nonce };
          state = cache_ready;
        } in
        let (served, s') = serve_pending_phones ready s in
        (record served { state = live }, cache_mark_ready cache, s')

    abbrev consumed : Upstream × Cache → S → Bool × Upstream × Cache × S
    consumed r s = (true, r.0, r.1, s)

    abbrev closed : Upstream × Cache × S → Bool × Upstream × Cache × S
    closed r = (true, r.0, r.1, r.2)

    -- A closing frame: of another or of no nonce it is a frame like others.
    close : Upstream → Cache → S → Bytes → FromradioInfo → Bool × Upstream × Cache × S
    unfolding finish consume
    close u cache s payload info = elim (decode_config_complete_nonce pb payload) [
      | none ↦ consumed (consume pb.tags u cache payload info.which_variant) s
      | some got_nonce ↦
          if got_nonce == u.nonce
          then closed (finish u cache s (length payload) info.which_variant got_nonce)
          else consumed (consume pb.tags u cache payload info.which_variant) s
    ]

    fetch : Upstream → Cache → S → Bytes → FromradioInfo → Bool × Upstream × Cache × S
    unfolding close consume
    fetch u cache s payload info =
        if info.which_variant == pb.tags.packet_tag
        then (false, u, cache, s)
        else if info.which_variant == pb.tags.config_complete_id_tag
        then close u cache s payload info
        else consumed (consume pb.tags u cache payload info.which_variant) s

    -- Whether the frame was consumed, and the state afterwards.
    pub upstream_on_fromradio :
        Upstream → Cache → S → Bytes → FromradioInfo → Bool × Upstream × Cache × S
    unfolding fetch
    upstream_on_fromradio u cache s payload info = elim u.state [
      | fetching ↦ fetch u cache s payload info
      | _ ↦ (false, u, cache, s)
    ]
