-- ===== src/Nanopb/Sample.antt =====
-- A concrete stand-in for nanopb, for the tests: a message is its tag, one number and the packet's
-- payload. The tags are those of the Meshtastic .proto files.
use meshtastic_ble_proxy.Base.{
  ℕ, ◌*◌, ◌/◌, ◌^◌, ltb, if◌then◌else◌, ◌==◌, ◌%◌, ◌+◌, Option, none, some, [], ◌∷◌, Bytes, arith,
}
use meshtastic_ble_proxy.Nanopb.{
  Tags, Nanopb, FromRadio, ToRadio, MeshPacket, written, failed, HasDistinctTags,
}

abbrev pub sample_tags : Tags
sample_tags = record {
  packet_tag = 2;
  my_info_tag = 3;
  node_info_tag = 4;
  config_tag = 5;
  config_complete_id_tag = 7;
  module_config_tag = 9;
  channel_tag = 10;
  queue_status_tag = 11;
  metadata_tag = 13;
  file_info_tag = 15;
  deviceui_config_tag = 17;
  toradio_packet_tag = 1;
  toradio_want_config_id_tag = 3;
  toradio_heartbeat_tag = 7;
  meshpacket_decoded_tag = 4;
}

-- A packet of the proxy's port with a payload.
abbrev pub sample_packet : Bytes → MeshPacket
sample_packet payload = record {
  from = 1;
  to = 2;
  which_payload_variant = 4;
  decoded = record { portnum = 256; payload = payload };
}

abbrev pub decode_fromradio : Bytes → Option FromRadio
decode_fromradio (tag ∷ number ∷ payload) = some (record {
  which_payload_variant = tag;
  packet = sample_packet payload;
  config_complete_id = number;
  queue_status = record { res = 0; free = 16; maxlen = 16; mesh_packet_id = 0 };
})
decode_fromradio _ = none

abbrev pub decode_toradio : Bytes → Option ToRadio
decode_toradio (tag ∷ number ∷ payload) = some (record {
  which_payload_variant = tag;
  packet = sample_packet payload;
  want_config_id = number;
  heartbeat_nonce = number;
})
decode_toradio _ = none

abbrev pub sample_nanopb : Nanopb
sample_nanopb = record {
  tags = sample_tags;
  decode_fromradio = decode_fromradio;
  decode_toradio = decode_toradio;
  encode_fromradio = λ m size. written (m.which_payload_variant ∷ m.config_complete_id % 256 ∷ []);
  encode_toradio = λ m size.
      written (m.which_payload_variant ∷ (m.want_config_id + m.heartbeat_nonce) % 256 ∷ []);
  toradio_size = 512;
}

pub sample_tags-HasDistinctTags : HasDistinctTags sample_tags
sample_tags-HasDistinctTags = record { fromradio = ground arith; toradio = ground arith }

-- A stand-in that keeps all 32 bits of the number, in four bytes, the lowest first.
abbrev pub word_bytes : ℕ → Bytes
word_bytes n = n % 2 ^ 8 ∷ (n / 2 ^ 8) % 2 ^ 8 ∷ (n / 2 ^ 16) % 2 ^ 8 ∷ (n / 2 ^ 24) % 2 ^ 8 ∷ []

abbrev word_of : ℕ → ℕ → ℕ → ℕ → ℕ
word_of a b c d = a + b * 2 ^ 8 + c * 2 ^ 16 + d * 2 ^ 24

abbrev wide_decode_fromradio : Bytes → Option FromRadio
wide_decode_fromradio (tag ∷ a ∷ b ∷ c ∷ d ∷ payload) = some (record {
  which_payload_variant = tag;
  packet = sample_packet payload;
  config_complete_id = word_of a b c d;
  queue_status = record { res = 0; free = 16; maxlen = 16; mesh_packet_id = 0 };
})
wide_decode_fromradio _ = none

abbrev wide_decode_toradio : Bytes → Option ToRadio
wide_decode_toradio (tag ∷ a ∷ b ∷ c ∷ d ∷ payload) = some (record {
  which_payload_variant = tag;
  packet = sample_packet payload;
  want_config_id = word_of a b c d;
  heartbeat_nonce = word_of a b c d;
})
wide_decode_toradio _ = none

abbrev pub wide_nanopb : Nanopb
wide_nanopb = record {
  tags = sample_tags;
  decode_fromradio = wide_decode_fromradio;
  decode_toradio = wide_decode_toradio;
  encode_fromradio = λ m size.
      if ltb size 5
      then failed 0
      else written (m.which_payload_variant ∷ word_bytes m.config_complete_id);
  encode_toradio = λ m size.
      if ltb size 5
      then failed 0
      else written (
          m.which_payload_variant
          ∷ word_bytes
              (if m.which_payload_variant == 3 then m.want_config_id else m.heartbeat_nonce));
  toradio_size = 512;
}
