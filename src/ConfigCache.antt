-- ===== src/ConfigCache.antt =====
-- src/config_cache.c and src/config_cache.h: the packed store of the node's config burst. The
-- module's static variables are one record; an index of -1 is `none`.
pub mod Layout
pub mod Frames
pub mod Segments
pub mod QueueStatus
pub mod Client
mod Tests
use meshtastic_ble_proxy.Base.{
  ℕ, ◌+◌, ◌%◌, ◌^◌, Bool, true, false, not, ◌&&◌, Option, none, some, List, ltb, leb, ◌==◌,
  if◌then◌else◌, length, get_elem?, set, replicate, drop, Bytes, copy_at, Rc, ok, err, enomem,
}
use meshtastic_ble_proxy.Nanopb.{Tags}

abbrev pub config_cache_arena_bytes : ℕ
config_cache_arena_bytes = 4096

abbrev pub config_cache_max_frames : ℕ
config_cache_max_frames = 128

abbrev pub mesh_nonce_only_config : ℕ
mesh_nonce_only_config = 69420

abbrev pub mesh_nonce_only_nodes : ℕ
mesh_nonce_only_nodes = 69421

-- `struct cache_frame_ref`
pub record FrameRef : Type 0 where
  pub offset : ℕ
  pub len : ℕ
  pub variant : ℕ

-- `s_arena`, `s_index`, `s_used`, `s_count`, `s_ready`, `s_queuestatus_idx`, `s_own_nodeinfo_idx`
pub record Cache : Type 0 where
  pub arena : Bytes
  pub index : List FrameRef
  pub used : ℕ
  pub count : ℕ
  pub ready : Bool
  pub queuestatus_idx : Option ℕ
  pub own_nodeinfo_idx : Option ℕ

-- The static variables at boot.
unfoldable pub cache_at_boot : Cache
cache_at_boot = record {
  arena = replicate config_cache_arena_bytes 0;
  index = replicate config_cache_max_frames (record { offset = 0; len = 0; variant = 0 });
  used = 0;
  count = 0;
  ready = false;
  queuestatus_idx = none;
  own_nodeinfo_idx = none;
}

unfoldable pub cache_begin : Cache → Cache
cache_begin c = record c {
  ready = false;
  used = 0;
  count = 0;
  queuestatus_idx = none;
  own_nodeinfo_idx = none;
}

-- `idx < 0` for an index of the model.
is_unset : Option ℕ → Bool
is_unset none = true
is_unset (some i) = false

-- The stores of an accepted frame.
pub store_frame : Tags → Cache → Bytes → ℕ → Cache
unfolding is_unset
store_frame tags c raw variant = record c {
  arena = copy_at c.arena c.used raw;
  index = set c.index c.count (record { offset = c.used; len = length raw; variant = variant });
  queuestatus_idx = if variant == tags.queue_status_tag then some c.count else c.queuestatus_idx;
  own_nodeinfo_idx =
      if (variant == tags.node_info_tag) && is_unset c.own_nodeinfo_idx
      then some c.count
      else c.own_nodeinfo_idx;
  used = (c.used + length raw) % 2 ^ 16;
  count = (c.count + 1) % 2 ^ 16;
}

pub cache_add_frame : Tags → Cache → Bytes → ℕ → Rc × Cache
cache_add_frame tags c raw variant =
    if leb config_cache_max_frames c.count
    then (err enomem, c)
    else if ltb config_cache_arena_bytes (c.used + length raw)
    then (err enomem, c)
    else (ok, store_frame tags c raw variant)

unfoldable pub cache_mark_ready : Cache → Cache
cache_mark_ready c = record c { ready = true }

abbrev pub cache_is_ready : Cache → Bool
cache_is_ready c = c.ready

pub cache_frame_at : Cache → ℕ → Option FrameRef
cache_frame_at c idx = if leb c.count idx then none else get_elem? c.index idx

-- `&s_arena[ref->offset]`, of which a caller reads `ref->len` bytes.
pub cache_frame_bytes : Cache → FrameRef → Bytes
cache_frame_bytes c ref = drop ref.offset c.arena

abbrev pub cache_frame_count : Cache → ℕ
cache_frame_count c = c.count

-- The pointer and length that a successful call gives out.
pub cache_get_queuestatus : Cache → Option (Bytes × ℕ)
cache_get_queuestatus c = elim c.queuestatus_idx [
  | none ↦ none
  | some i ↦ elim (get_elem? c.index i) [
    | none ↦ none
    | some ref ↦ some (drop ref.offset c.arena, ref.len)
  ]
]

-- `(int)idx == s_own_nodeinfo_idx`
is_index : Option ℕ → ℕ → Bool
is_index none i = false
is_index (some j) i = i == j

-- The segment test on a frame's variant, for a frame that is in range.
pub variant_in_segment : Tags → Option ℕ → ℕ → ℕ → ℕ → Bool
unfolding is_index
variant_in_segment tags own idx nonce variant =
    if variant == tags.config_complete_id_tag
    then false
    else let is_nodeinfo = variant == tags.node_info_tag in
      if nonce == mesh_nonce_only_nodes
      then is_nodeinfo
      else if nonce == mesh_nonce_only_config
      then if is_nodeinfo && not (is_index own idx) then false else true
      else true

pub cache_frame_in_segment : Tags → Cache → ℕ → ℕ → Bool
unfolding variant_in_segment
cache_frame_in_segment tags c idx nonce =
    if leb c.count idx then false else elim (get_elem? c.index idx) [
      | none ↦ false
      | some ref ↦ variant_in_segment tags c.own_nodeinfo_idx idx nonce ref.variant
    ]
