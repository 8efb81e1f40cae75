-- ===== src/ConfigCache/Tests.antt =====
-- src/config_cache.c with the frames of a small burst.

use meshtastic_ble_proxy.Base.{◌≡◌, List, false, [], ◌∷◌}
use meshtastic_ble_proxy.Nanopb.Sample.{sample_tags, sample_tags-HasDistinctTags}
use meshtastic_ble_proxy.ConfigCache.{
  Cache, cache_at_boot, cache_add_frame, cache_begin, mesh_nonce_only_nodes, mesh_nonce_only_config,
}
use meshtastic_ble_proxy.ConfigCache.Layout.{IsValid, at_boot-IsValid, cache_add_frame-IsValid}
use meshtastic_ble_proxy.ConfigCache.Frames.{frames}
use meshtastic_ble_proxy.ConfigCache.Segments.{segment, served_from, served_from-segment}
use meshtastic_ble_proxy.ConfigCache.Client.{
  CacheCall, begin, mark_ready, is_ready, frame_count, get_queuestatus, add_frame, read_frame,
  in_segment, run,
}
use meshtastic_ble_proxy.ConfigCache.Client.Listed.{packed, listed}
use meshtastic_ble_proxy.ConfigCache.Client.Agreement.{run-packed}
use meshtastic_ble_proxy.ConfigCache.Client.Views.{observe-begun}

-- Two node_info frames.
abbrev one_node : Cache
one_node = (cache_add_frame sample_tags cache_at_boot (4 ∷ 1 ∷ []) 4).1

one_node-IsValid : IsValid sample_tags one_node
one_node-IsValid =
    cache_add_frame-IsValid sample_tags cache_at_boot (4 ∷ 1 ∷ []) 4 (at_boot-IsValid sample_tags)

served_from-segment_example :
    served_from sample_tags one_node mesh_nonce_only_nodes 0 one_node.count
    ≡ segment sample_tags mesh_nonce_only_nodes (frames one_node)
served_from-segment_example =
    served_from-segment sample_tags one_node mesh_nonce_only_nodes sample_tags-HasDistinctTags
      one_node-IsValid

-- A burst of two node_info frames and a queueStatus, and what a phone asks of it.
abbrev sample_calls : List CacheCall
sample_calls =
    begin
    ∷ add_frame (4 ∷ 1 ∷ []) 4
    ∷ add_frame (4 ∷ 2 ∷ []) 4
    ∷ add_frame (11 ∷ 7 ∷ []) 11
    ∷ mark_ready
    ∷ is_ready
    ∷ frame_count
    ∷ read_frame 1
    ∷ in_segment 0 mesh_nonce_only_config
    ∷ in_segment 1 mesh_nonce_only_config
    ∷ get_queuestatus
    ∷ []

run-packed_example :
    run (packed sample_tags) cache_at_boot sample_calls
    ≡ run (listed sample_tags) (record { ready = false; frames = [] }) sample_calls
run-packed_example = run-packed sample_tags sample_tags-HasDistinctTags sample_calls

observe-begun_example :
    run (packed sample_tags) (cache_begin one_node) sample_calls
    ≡ run (packed sample_tags) cache_at_boot sample_calls
observe-begun_example =
    observe-begun sample_tags sample_tags-HasDistinctTags one_node one_node-IsValid sample_calls
