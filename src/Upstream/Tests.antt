-- ===== src/Upstream/Tests.antt =====
-- src/upstream_session.c on a short burst and a few firings.
use meshtastic_ble_proxy.Base.{
  ℕ, some, subst, Bool-cases, ltb, ◌≤◌, ◌≡◌, refl, List, [], ◌∷◌, ◌++◌, arith, length, Bytes, inl,
  inr, true, false, All,
}
use meshtastic_ble_proxy.Nanopb.{FromRadio, ToRadio}
use meshtastic_ble_proxy.Nanopb.Sample.{
  sample_tags, sample_nanopb, wide_nanopb, word_bytes, sample_tags-HasDistinctTags,
}
use meshtastic_ble_proxy.Proto.{FromradioInfo, proto_decode_fromradio, proto_encode_config_complete}
use meshtastic_ble_proxy.Proto.RoundTrip.{IsCodec}
use meshtastic_ble_proxy.Upstream.Codec.{config_complete-decode}
use meshtastic_ble_proxy.ConfigCache.{cache_at_boot}
use meshtastic_ble_proxy.ConfigCache.Layout.{at_boot-IsValid}
use meshtastic_ble_proxy.ConfigCache.Frames.{frames}
use meshtastic_ble_proxy.Uart.{tx_at_boot}
use meshtastic_ble_proxy.Upstream.{
  Upstream, upstream_at_boot, fetching, keepalive_work_handler, is_pending,
  decode_config_complete_nonce,
}
use meshtastic_ble_proxy.Upstream.Session.{Incoming, cached, feed, IsEnd, IsOpen}
use meshtastic_ble_proxy.Upstream.Session.End.{IsServed, feed-IsServed}
use meshtastic_ble_proxy.Upstream.Nonces.{SendsPlain, keepalive_runs, keepalive-SendsPlain}
use meshtastic_ble_proxy.Upstream.Waiting.{IsOnce}

-- The session while it fetches, with two phones that wait.
abbrev session : Upstream
session = record upstream_at_boot {
  state = fetching;
  nonce = 5;
  pending = 7 ∷ 9 ∷ [];
  serve_cb = true;
}

-- A callback that only records whom it serves.
abbrev note : ℕ → ℕ → List ℕ → List ℕ
note conn nonce served = conn ∷ served

abbrev frame_in : Bytes → ℕ → Incoming
frame_in payload variant = record {
  payload = payload;
  info = record {
    which_variant = variant;
    packet_from = 0;
    packet_to = 0;
    is_decoded = false;
    portnum = 0;
    payload = [];
  };
}

-- my_info, a live packet, a node, and a closing frame of another nonce.
abbrev burst : List Incoming
burst =
    frame_in (3 ∷ 1 ∷ []) 3
    ∷ frame_in (2 ∷ 1 ∷ []) 2
    ∷ frame_in (4 ∷ 1 ∷ []) 4
    ∷ frame_in (7 ∷ 6 ∷ []) 7
    ∷ []

abbrev closing : Incoming
closing = frame_in (7 ∷ 5 ∷ []) 7

burst-IsOpen : All (IsOpen note sample_nanopb 5) burst
unfolding decode_config_complete_nonce
burst-IsOpen =
    (inl (ground arith), (inl (ground arith), (inl (ground arith), (inr (ground arith), tt))))

closing-IsEnd : IsEnd note sample_nanopb 5 closing
unfolding decode_config_complete_nonce
closing-IsEnd = (ground arith, refl, refl)

feed-IsServed_example :
    let (u', cache', s') =
      feed note sample_nanopb session cache_at_boot [] (burst ++ closing ∷ []) in
    IsServed note sample_nanopb session []
      (cached sample_tags (frames cache_at_boot) burst)
      u'
      cache'
      s'
feed-IsServed_example =
    feed-IsServed note sample_nanopb session cache_at_boot [] burst closing refl refl
      (at_boot-IsValid sample_tags) burst-IsOpen closing-IsEnd

session-IsOnce : IsOnce session.pending
unfolding is_pending
session-IsOnce = (refl, (refl, tt))

-- The counter wraps between the firings.
abbrev late : Upstream
late = record session { keepalive_nonce = 4294967295 }

keepalive-SendsPlain_example :
    let (u', tx') = keepalive_runs sample_nanopb 3 late tx_at_boot in
    SendsPlain sample_nanopb tx' (keepalive_work_handler sample_nanopb u' tx').1
keepalive-SendsPlain_example =
    keepalive-SendsPlain sample_nanopb 3 late tx_at_boot (omega arith, omega arith)

wide_nanopb-IsCodec : IsCodec wide_nanopb
wide_nanopb-IsCodec = record {
  config_complete = λ m size bytes variant word e. elim (Bool-cases (ltb size 5)) [
    | inl short ↦ absurd (ground arith)
    | inr room ↦
        let wrote : m.which_payload_variant ∷ word_bytes m.config_complete_id ≡ bytes =
          ground arith in
        subst
          (λ b.
            (length b ≤ size)
            × ((m' : FromRadio) × (wide_nanopb.decode_fromradio b ≡ some m')
                × (m'.which_payload_variant ≡ m.which_payload_variant)
                × (m'.config_complete_id ≡ m.config_complete_id)))
          wrote (ground arith, (_, refl, refl, omega arith))
  ];
  heartbeat = λ m size bytes variant word e. elim (Bool-cases (ltb size 5)) [
    | inl short ↦ absurd (ground arith)
    | inr room ↦
        let wrote : m.which_payload_variant ∷ word_bytes m.heartbeat_nonce ≡ bytes = ground arith in
        subst
          (λ b.
            (length b ≤ size)
            × ((m' : ToRadio) × (wide_nanopb.decode_toradio b ≡ some m')
                × (m'.which_payload_variant ≡ m.which_payload_variant)
                × (m'.heartbeat_nonce ≡ m.heartbeat_nonce)))
          wrote (ground arith, (_, refl, refl, omega arith))
  ];
}

config_complete-decode_example :
    (info : FromradioInfo) × (length (7 ∷ word_bytes 69420) ≤ 16)
    × (decode_config_complete_nonce wide_nanopb (7 ∷ word_bytes 69420) ≡ some 69420)
    × (proto_decode_fromradio wide_nanopb (7 ∷ word_bytes 69420) ≡ some info)
    × (info.which_variant ≡ 7)
    × (info.is_decoded ≡ false)
unfolding proto_encode_config_complete
config_complete-decode_example =
    config_complete-decode wide_nanopb wide_nanopb-IsCodec 69420 16 (7 ∷ word_bytes 69420)
      (omega arith) (omega arith) sample_tags-HasDistinctTags refl
