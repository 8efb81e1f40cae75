-- ===== src/Proto.antt =====
-- src/proto_handler.c and src/proto_handler.h: the routing fields taken from decoded messages, and
-- the three messages that the proxy makes itself. nanopb is a parameter; the scratch structs are
-- cleared on every call and hold nothing between calls.
pub mod RoundTrip
use meshtastic_ble_proxy.Base.{
  ℕ, ◌%◌, ◌^◌, ◌&&◌, Bool, true, false, Option, none, some, [], leb, ◌==◌, if◌then◌else◌, length,
  take, Bytes, Errno, einval, enomem,
}
use meshtastic_ble_proxy.Nanopb.{
  Nanopb, FromRadio, ToRadio, MeshPacket, PacketData, QueueStatus, Encoded, written, failed,
}

-- `struct fromradio_info`. The payload pointer and its length are one list.
pub record FromradioInfo : Type 0 where
  pub which_variant : ℕ
  pub packet_from : ℕ
  pub packet_to : ℕ
  pub is_decoded : Bool
  pub portnum : ℕ
  pub payload : Bytes

-- `struct toradio_info`
pub record ToradioInfo : Type 0 where
  pub has_want_config : Bool
  pub want_config_id : ℕ
  pub has_heartbeat : Bool
  pub is_packet : Bool
  pub portnum : ℕ
  pub payload : Bytes

abbrev pub empty_packet : MeshPacket
empty_packet = record {
  from = 0;
  to = 0;
  which_payload_variant = 0;
  decoded = record { portnum = 0; payload = [] };
}

abbrev pub empty_queue_status : QueueStatus
empty_queue_status = record { res = 0; free = 0; maxlen = 0; mesh_packet_id = 0 }

-- meshtastic_FromRadio_init_zero and meshtastic_ToRadio_init_zero
abbrev pub fromradio_init_zero : FromRadio
fromradio_init_zero = record {
  which_payload_variant = 0;
  packet = empty_packet;
  config_complete_id = 0;
  queue_status = empty_queue_status;
}

abbrev pub toradio_init_zero : ToRadio
toradio_init_zero = record {
  which_payload_variant = 0;
  packet = empty_packet;
  want_config_id = 0;
  heartbeat_nonce = 0;
}

-- `payload.bytes` with the length cast to 16 bits.
abbrev payload_of : PacketData → Bytes
payload_of d = take (length d.payload % 2 ^ 16) d.payload

module _ (pb : Nanopb) where
  open pb use {tags}

  -- The routing fields of a decoded message.
  pub fromradio_fields : FromRadio → FromradioInfo
  fromradio_fields m =
      let blank : FromradioInfo = record {
        which_variant = m.which_payload_variant;
        packet_from = 0;
        packet_to = 0;
        is_decoded = false;
        portnum = 0;
        payload = [];
      } in
      let routed = record blank { packet_from = m.packet.from; packet_to = m.packet.to } in
      if m.which_payload_variant == tags.packet_tag
      then if m.packet.which_payload_variant == tags.meshpacket_decoded_tag
        then record routed {
          is_decoded = true;
          portnum = m.packet.decoded.portnum;
          payload = payload_of m.packet.decoded;
        }
        else routed
      else blank

  -- `none` is -EINVAL.
  unfoldable pub proto_decode_fromradio : Bytes → Option FromradioInfo
  unfolding fromradio_fields
  proto_decode_fromradio buf = elim (pb.decode_fromradio buf) [
    | none ↦ none
    | some m ↦ some (fromradio_fields m)
  ]

  -- The switch on the variant.
  pub toradio_fields : ToRadio → ToradioInfo
  toradio_fields m =
      let blank : ToradioInfo = record {
        has_want_config = false;
        want_config_id = 0;
        has_heartbeat = false;
        is_packet = false;
        portnum = 0;
        payload = [];
      } in
      if m.which_payload_variant == tags.toradio_want_config_id_tag
      then record blank { has_want_config = true; want_config_id = m.want_config_id }
      else if m.which_payload_variant == tags.toradio_heartbeat_tag
      then record blank { has_heartbeat = true }
      else if (m.which_payload_variant == tags.toradio_packet_tag)
          && (m.packet.which_payload_variant == tags.meshpacket_decoded_tag)
      then record blank {
        is_packet = true;
        portnum = m.packet.decoded.portnum;
        payload = payload_of m.packet.decoded;
      }
      else blank

  unfoldable pub proto_decode_toradio : Bytes → Option ToradioInfo
  unfolding toradio_fields
  proto_decode_toradio buf = elim (pb.decode_toradio buf) [
    | none ↦ none
    | some m ↦ some (toradio_fields m)
  ]

-- The `*out_len` bytes of `out_buf`, or the error.
pub data EncodeResult : Type 0 where
  encoded : Bytes → EncodeResult
  encode_failed : Errno → EncodeResult

-- The end of each encoder: the 16-bit length, and the error by what was written.
encode_result : ℕ → Encoded → EncodeResult
encode_result buf_size (written bytes) = encoded (take (length bytes % 2 ^ 16) bytes)
encode_result buf_size (failed bytes_written) =
    encode_failed (if leb buf_size bytes_written then enomem else einval)

module _ (pb : Nanopb) where
  open pb use {tags}

  abbrev pub config_complete_message : ℕ → FromRadio
  config_complete_message nonce = record fromradio_init_zero {
    which_payload_variant = tags.config_complete_id_tag;
    config_complete_id = nonce;
  }

  unfoldable pub proto_encode_config_complete : ℕ → ℕ → EncodeResult
  unfolding encode_result
  proto_encode_config_complete nonce buf_size =
      encode_result buf_size (pb.encode_fromradio (config_complete_message nonce) buf_size)

  abbrev pub heartbeat_message : ℕ → ToRadio
  heartbeat_message nonce = record toradio_init_zero {
    which_payload_variant = tags.toradio_heartbeat_tag;
    heartbeat_nonce = nonce;
  }

  unfoldable pub proto_encode_heartbeat : ℕ → ℕ → EncodeResult
  unfolding encode_result
  proto_encode_heartbeat nonce buf_size =
      encode_result buf_size (pb.encode_toradio (heartbeat_message nonce) buf_size)

  abbrev pub queue_status_message : FromRadio
  queue_status_message = record fromradio_init_zero {
    which_payload_variant = tags.queue_status_tag;
    queue_status = record { res = 0; free = 16; maxlen = 16; mesh_packet_id = 0 };
  }

  unfoldable pub proto_encode_queue_status : ℕ → EncodeResult
  unfolding encode_result
  proto_encode_queue_status buf_size =
      encode_result buf_size (pb.encode_fromradio queue_status_message buf_size)
