-- ===== src/Upstream/Codec.antt =====
-- The closing frames that src/proto_handler.c makes, as src/upstream_session.c reads such frames, and
-- the heartbeats of the keepalive.
use meshtastic_ble_proxy.Base.{
  ℕ, ◌^◌, ◌≤◌, ◌<◌, ◌≡◌, ◌≢◌, refl, true, false, some, arith, length, Bytes, [],
}
use meshtastic_ble_proxy.Nanopb.{Nanopb, HasDistinctTags}
use meshtastic_ble_proxy.Proto.{
  FromradioInfo, ToradioInfo, encoded, proto_decode_fromradio, proto_decode_toradio,
  proto_encode_config_complete, proto_encode_heartbeat, config_complete_message, heartbeat_message,
}
use meshtastic_ble_proxy.Proto.RoundTrip.{IsCodec, config_complete-written, heartbeat-written}
use meshtastic_ble_proxy.Upstream.{decode_config_complete_nonce}

module _ (pb : Nanopb) (codec : IsCodec pb) (nonce size : ℕ) (bytes : Bytes) (word : nonce < 2 ^ 32)
    (small : size < 2 ^ 16) where
  -- With nanopb's round trip of the two variants, a closing frame that is encoded for a
  -- 32-bit nonce and a buffer below 64 KB fits the buffer, is recognised as a closing frame of that
  -- nonce, and is routed as a frame that is no packet.
  pub config_complete-decode :
      HasDistinctTags pb.tags
      → proto_encode_config_complete pb nonce size ≡ encoded bytes
      → (info : FromradioInfo) × (length bytes ≤ size)
        × (decode_config_complete_nonce pb bytes ≡ some nonce)
        × (proto_decode_fromradio pb bytes ≡ some info)
        × (info.which_variant ≡ pb.tags.config_complete_id_tag)
        × (info.is_decoded ≡ false)
  unfolding decode_config_complete_nonce proto_decode_fromradio
  config_complete-decode d e =
      let wrote = config_complete-written pb nonce size bytes codec word small e in
      let (le, (m, decoded, variant, number)) =
        codec.config_complete (config_complete_message pb nonce) size bytes refl word wrote in
      let no_packet : pb.tags.config_complete_id_tag ≢ pb.tags.packet_tag =
        ground (arith, d.fromradio) in
      (
        record {
          which_variant = pb.tags.config_complete_id_tag;
          packet_from = 0;
          packet_to = 0;
          is_decoded = false;
          portnum = 0;
          payload = [];
        },
        le,
        ground arith,
        ground arith,
        refl,
        refl,
      )

  -- With the same round trip, a heartbeat that is encoded for a 32-bit nonce is decoded as a
  -- heartbeat, and not as a want_config, which would start the node's config session again.
  pub heartbeat-decode :
      HasDistinctTags pb.tags
      → proto_encode_heartbeat pb nonce size ≡ encoded bytes
      → (ti : ToradioInfo) × (length bytes ≤ size)
        × (proto_decode_toradio pb bytes ≡ some ti)
        × (ti.has_heartbeat ≡ true)
        × (ti.has_want_config ≡ false)
  unfolding proto_decode_toradio
  heartbeat-decode d e =
      let wrote = heartbeat-written pb nonce size bytes codec word small e in
      let (le, (m, decoded, variant, number)) =
        codec.heartbeat (heartbeat_message pb nonce) size bytes refl word wrote in
      let no_ask : pb.tags.toradio_heartbeat_tag ≢ pb.tags.toradio_want_config_id_tag =
        ground (arith, d.toradio) in
      (
        record {
          has_want_config = false;
          want_config_id = 0;
          has_heartbeat = true;
          is_packet = false;
          portnum = 0;
          payload = [];
        },
        le,
        ground arith,
        refl,
        refl,
      )
