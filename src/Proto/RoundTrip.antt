-- ===== src/Proto/RoundTrip.antt =====
-- What the messages that src/proto_handler.c encodes say once they are decoded.
use meshtastic_ble_proxy.Base.{
  ℕ, ◌%◌, ◌^◌, ◌≤◌, ◌<◌, ◌≡◌, refl, ap, ◌∙◌, some, arith, length, take, take-all, Bytes,
}
use meshtastic_ble_proxy.Nanopb.{Nanopb, FromRadio, ToRadio, Encoded, written, failed}
use meshtastic_ble_proxy.Proto.{
  encoded, encode_result, config_complete_message, heartbeat_message, proto_encode_config_complete,
  proto_encode_heartbeat,
}

-- What is written fits the buffer, and a message that is encoded is decoded to its variant and that
-- variant's number, as Protocol Buffers have it: for any message of these two variants, whose numbers
-- are uint32.
pub record IsCodec (pb : Nanopb) : Type 0 where
  pub config_complete :
      (m : FromRadio) (size : ℕ) (bytes : Bytes)
      → m.which_payload_variant ≡ pb.tags.config_complete_id_tag
      → m.config_complete_id < 2 ^ 32
      → pb.encode_fromradio m size ≡ written bytes
      → (length bytes ≤ size)
        × ((m' : FromRadio) × (pb.decode_fromradio bytes ≡ some m')
            × (m'.which_payload_variant ≡ m.which_payload_variant)
            × (m'.config_complete_id ≡ m.config_complete_id))
  pub heartbeat :
      (m : ToRadio) (size : ℕ) (bytes : Bytes)
      → m.which_payload_variant ≡ pb.tags.toradio_heartbeat_tag
      → m.heartbeat_nonce < 2 ^ 32
      → pb.encode_toradio m size ≡ written bytes
      → (length bytes ≤ size)
        × ((m' : ToRadio) × (pb.decode_toradio bytes ≡ some m')
            × (m'.which_payload_variant ≡ m.which_payload_variant)
            × (m'.heartbeat_nonce ≡ m.heartbeat_nonce))

-- An encoder's buffer sizes are below 2^16, so that the 16-bit length loses nothing.
encode_result-written :
    (size : ℕ) (r : Encoded) (bytes : Bytes)
    → encode_result size r ≡ encoded bytes
    → (raw : Bytes) × (r ≡ written raw) × (bytes ≡ take (length raw % 2 ^ 16) raw)
unfolding encode_result
encode_result-written size (written raw) bytes e = (raw, refl, cc)
encode_result-written size (failed n) bytes e = absurd (cc)

module _ (pb : Nanopb) (nonce size : ℕ) (bytes : Bytes) where
  written_whole :
      (raw : Bytes)
      → length raw ≤ size
      → size < 2 ^ 16
      → bytes ≡ take (length raw % 2 ^ 16) raw
      → raw ≡ bytes
  written_whole raw le small e = ground (arith, take-all (length raw % 2 ^ 16) raw)

  -- What an encoder gives out is all that nanopb wrote.
  pub config_complete-written :
      IsCodec pb
      → nonce < 2 ^ 32
      → size < 2 ^ 16
      → proto_encode_config_complete pb nonce size ≡ encoded bytes
      → pb.encode_fromradio (config_complete_message pb nonce) size ≡ written bytes
  unfolding proto_encode_config_complete
  config_complete-written codec word small e =
      let (raw, wrote, cut) = encode_result-written size _ bytes e in
      let (le, _) =
        codec.config_complete (config_complete_message pb nonce) size raw refl word wrote in
      wrote ∙ ap written (written_whole raw le small cut)

  pub heartbeat-written :
      IsCodec pb
      → nonce < 2 ^ 32
      → size < 2 ^ 16
      → proto_encode_heartbeat pb nonce size ≡ encoded bytes
      → pb.encode_toradio (heartbeat_message pb nonce) size ≡ written bytes
  unfolding proto_encode_heartbeat
  heartbeat-written codec word small e =
      let (raw, wrote, cut) = encode_result-written size _ bytes e in
      let (le, _) = codec.heartbeat (heartbeat_message pb nonce) size raw refl word wrote in
      wrote ∙ ap written (written_whole raw le small cut)
