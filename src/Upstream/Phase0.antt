-- ===== src/Upstream/Phase0.antt =====
-- The counters of the config burst in src/upstream_session.c: bytes and frames by kind.
use meshtastic_ble_proxy.Base.{ℕ, ◌+◌, ◌%◌, ◌^◌, ◌==◌, if◌then◌else◌}
use meshtastic_ble_proxy.Nanopb.{Tags}

-- `struct phase0_stats`
pub record Phase0Stats : Type 0 where
  pub total_bytes : ℕ
  pub my_info_bytes : ℕ
  pub deviceui_config_bytes : ℕ
  pub node_info_bytes : ℕ
  pub node_info_count : ℕ
  pub metadata_bytes : ℕ
  pub channel_bytes : ℕ
  pub channel_count : ℕ
  pub config_bytes : ℕ
  pub config_count : ℕ
  pub module_config_bytes : ℕ
  pub module_config_count : ℕ
  pub file_info_bytes : ℕ
  pub file_info_count : ℕ
  pub queue_status_bytes : ℕ
  pub queue_status_count : ℕ
  pub config_complete_id : ℕ
  pub other_bytes : ℕ
  pub other_count : ℕ

unfoldable pub phase0_reset : Phase0Stats
phase0_reset = record {
  total_bytes = 0;
  my_info_bytes = 0;
  deviceui_config_bytes = 0;
  node_info_bytes = 0;
  node_info_count = 0;
  metadata_bytes = 0;
  channel_bytes = 0;
  channel_count = 0;
  config_bytes = 0;
  config_count = 0;
  module_config_bytes = 0;
  module_config_count = 0;
  file_info_bytes = 0;
  file_info_count = 0;
  queue_status_bytes = 0;
  queue_status_count = 0;
  config_complete_id = 0;
  other_bytes = 0;
  other_count = 0;
}

-- Additions of the 32-bit and 16-bit counters.
abbrev pub add32 : ℕ → ℕ → ℕ
add32 a b = (a + b) % 2 ^ 32

abbrev pub incr16 : ℕ → ℕ
incr16 a = (a + 1) % 2 ^ 16

-- The switch on the variant.
unfoldable pub phase0_switch : Tags → Phase0Stats → ℕ → ℕ → Phase0Stats
phase0_switch tags s variant len =
    if variant == tags.my_info_tag
    then record s { my_info_bytes = add32 s.my_info_bytes len }
    else if variant == tags.deviceui_config_tag
    then record s { deviceui_config_bytes = add32 s.deviceui_config_bytes len }
    else if variant == tags.node_info_tag
    then record s {
      node_info_bytes = add32 s.node_info_bytes len;
      node_info_count = incr16 s.node_info_count;
    }
    else if variant == tags.metadata_tag
    then record s { metadata_bytes = add32 s.metadata_bytes len }
    else if variant == tags.channel_tag
    then record s {
      channel_bytes = add32 s.channel_bytes len;
      channel_count = incr16 s.channel_count;
    }
    else if variant == tags.config_tag
    then record s { config_bytes = add32 s.config_bytes len; config_count = incr16 s.config_count }
    else if variant == tags.module_config_tag
    then record s {
      module_config_bytes = add32 s.module_config_bytes len;
      module_config_count = incr16 s.module_config_count;
    }
    else if variant == tags.file_info_tag
    then record s {
      file_info_bytes = add32 s.file_info_bytes len;
      file_info_count = incr16 s.file_info_count;
    }
    else if variant == tags.queue_status_tag
    then record s {
      queue_status_bytes = add32 s.queue_status_bytes len;
      queue_status_count = incr16 s.queue_status_count;
    }
    else record s { other_bytes = add32 s.other_bytes len; other_count = incr16 s.other_count }

unfoldable pub phase0_account : Tags → Phase0Stats → ℕ → ℕ → Phase0Stats
unfolding phase0_switch
phase0_account tags s variant len =
    phase0_switch tags (record s { total_bytes = add32 s.total_bytes len }) variant len
