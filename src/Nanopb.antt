-- ===== src/Nanopb.antt =====
-- What the build generates from the Meshtastic .proto files and what the nanopb library does: the
-- messages' fields that the source reads or sets, the tags, and `pb_decode` and `pb_encode` on a
-- buffer. The functions are parameters of the model.
pub mod Sample
use meshtastic_ble_proxy.Base.{ℕ, ◌≢◌, Option, List, [], ◌∷◌, Bytes, All}

-- meshtastic_Data
pub record PacketData : Type 0 where
  pub portnum : ℕ
  pub payload : Bytes

-- meshtastic_MeshPacket
pub record MeshPacket : Type 0 where
  pub from : ℕ
  pub to : ℕ
  pub which_payload_variant : ℕ
  pub decoded : PacketData

-- meshtastic_QueueStatus
pub record QueueStatus : Type 0 where
  pub res : ℕ
  pub free : ℕ
  pub maxlen : ℕ
  pub mesh_packet_id : ℕ

-- meshtastic_FromRadio. The variants are members of a union, read behind a test of the tag.
pub record FromRadio : Type 0 where
  pub which_payload_variant : ℕ
  pub packet : MeshPacket
  pub config_complete_id : ℕ
  pub queue_status : QueueStatus

-- meshtastic_ToRadio, with meshtastic_Heartbeat's one field
pub record ToRadio : Type 0 where
  pub which_payload_variant : ℕ
  pub packet : MeshPacket
  pub want_config_id : ℕ
  pub heartbeat_nonce : ℕ

-- The generated meshtastic_*_tag constants.
pub record Tags : Type 0 where
  pub packet_tag : ℕ
  pub my_info_tag : ℕ
  pub node_info_tag : ℕ
  pub config_tag : ℕ
  pub config_complete_id_tag : ℕ
  pub module_config_tag : ℕ
  pub channel_tag : ℕ
  pub queue_status_tag : ℕ
  pub metadata_tag : ℕ
  pub file_info_tag : ℕ
  pub deviceui_config_tag : ℕ
  pub toradio_packet_tag : ℕ
  pub toradio_want_config_id_tag : ℕ
  pub toradio_heartbeat_tag : ℕ
  pub meshpacket_decoded_tag : ℕ

abbrev pub Distinct : List ℕ → Type 0
Distinct [] = Unit
Distinct (x ∷ xs) = All (λ y. x ≢ y) xs × Distinct xs

abbrev pub fromradio_tags : Tags → List ℕ
fromradio_tags t =
    t.packet_tag ∷ t.my_info_tag ∷ t.node_info_tag ∷ t.config_tag ∷ t.config_complete_id_tag
    ∷ t.module_config_tag ∷ t.channel_tag ∷ t.queue_status_tag ∷ t.metadata_tag ∷ t.file_info_tag
    ∷ t.deviceui_config_tag ∷ []

abbrev pub toradio_tags : Tags → List ℕ
toradio_tags t = t.toradio_packet_tag ∷ t.toradio_want_config_id_tag ∷ t.toradio_heartbeat_tag ∷ []

-- The field numbers of one message differ.
pub record HasDistinctTags (t : Tags) : Type 0 where
  pub fromradio : Distinct (fromradio_tags t)
  pub toradio : Distinct (toradio_tags t)

-- What `pb_encode` leaves: the bytes, or on failure `stream.bytes_written`.
pub data Encoded : Type 0 where
  written : Bytes → Encoded
  failed : ℕ → Encoded

pub record Nanopb : Type 0 where
  pub tags : Tags
  pub decode_fromradio : Bytes → Option FromRadio
  pub decode_toradio : Bytes → Option ToRadio
  pub encode_fromradio : FromRadio → ℕ → Encoded
  pub encode_toradio : ToRadio → ℕ → Encoded
  -- meshtastic_ToRadio_size
  pub toradio_size : ℕ
