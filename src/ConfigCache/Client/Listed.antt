-- ===== src/ConfigCache/Client/Listed.antt =====
-- The two stores behind the interface of src/config_cache.h: the packed one of the source, and a
-- plain list of frames with a flag.
use mathlib.Core.Option
use meshtastic_ble_proxy.Base.{
  ℕ, Bool, true, false, not, ◌&&◌, ◌||◌, none, some, List, [], ◌∷◌, ◌==◌, if◌then◌else◌, length,
  get_elem?, take, ok, err, enomem,
}
use meshtastic_ble_proxy.Nanopb.{Tags}
use meshtastic_ble_proxy.ConfigCache.{
  Cache, cache_begin, cache_add_frame, cache_mark_ready, cache_is_ready, cache_frame_count,
  cache_get_queuestatus, cache_frame_in_segment, mesh_nonce_only_config, mesh_nonce_only_nodes,
}
use meshtastic_ble_proxy.ConfigCache.Frames.{Frame, has_room, add}
use meshtastic_ble_proxy.ConfigCache.Segments
use meshtastic_ble_proxy.ConfigCache.Segments.{is_nodeinfo, is_content}
use meshtastic_ble_proxy.ConfigCache.QueueStatus.{last_queuestatus}
use meshtastic_ble_proxy.ConfigCache.Client.{
  CacheCall, begin, mark_ready, is_ready, frame_count, get_queuestatus, add_frame, read_frame,
  in_segment, CacheAnswer, done, code, flag, number, frame, queuestatus, FrameStore,
}

-- A plain list of frames, and whether the burst is complete.
pub record Listing : Type 0 where
  pub ready : Bool
  pub frames : List Frame

module _ (tags : Tags) where
  -- The calls of the source. A frame is read by its entry and as many bytes as that says.
  unfoldable pub packed_call : CacheCall → Cache → CacheAnswer × Cache
  packed_call begin c = (done, cache_begin c)
  packed_call mark_ready c = (done, cache_mark_ready c)
  packed_call is_ready c = (flag (cache_is_ready c), c)
  packed_call frame_count c = (number (cache_frame_count c), c)
  packed_call get_queuestatus c =
      (queuestatus (Option.map (λ r. take r.1 r.0) (cache_get_queuestatus c)), c)
  packed_call (add_frame raw variant) c =
      let (rc, d) = cache_add_frame tags c raw variant in (code rc, d)
  packed_call (read_frame idx) c = (frame (Segments.read_frame tags c idx), c)
  packed_call (in_segment idx nonce) c = (flag (cache_frame_in_segment tags c idx nonce), c)

  abbrev pub packed : FrameStore
  packed = record { Store = Cache; call = packed_call }

  abbrev pub any_nodeinfo : List Frame → Bool
  any_nodeinfo [] = false
  any_nodeinfo (f ∷ fs) = is_nodeinfo tags f || any_nodeinfo fs

  -- Whether a frame belongs to a phone's replay, by the frames before it: the node's own node_info is
  -- the first of them.
  abbrev pub belongs : List Frame → Frame → ℕ → Bool
  belongs before f nonce =
      if nonce == mesh_nonce_only_nodes
      then is_nodeinfo tags f
      else if nonce == mesh_nonce_only_config
      then is_content tags f && not (is_nodeinfo tags f && any_nodeinfo before)
      else is_content tags f

  abbrev pub shown : List Frame → ℕ → ℕ → Bool
  shown fs idx nonce = elim (get_elem? fs idx) [
    | none ↦ false
    | some f ↦ belongs (take idx fs) f nonce
  ]

  unfoldable pub listed_call : CacheCall → Listing → CacheAnswer × Listing
  listed_call begin l = (done, record { ready = false; frames = [] })
  listed_call mark_ready l = (done, record l { ready = true })
  listed_call is_ready l = (flag l.ready, l)
  listed_call frame_count l = (number (length l.frames), l)
  listed_call get_queuestatus l = (queuestatus (last_queuestatus tags l.frames), l)
  listed_call (add_frame raw variant) l =
      let f : Frame = record { bytes = raw; variant = variant } in
      (code (if has_room l.frames f then ok else err enomem), record l { frames = add l.frames f })
  listed_call (read_frame idx) l = (frame (get_elem? l.frames idx), l)
  listed_call (in_segment idx nonce) l = (flag (shown l.frames idx nonce), l)

  abbrev pub listed : FrameStore
  listed = record { Store = Listing; call = listed_call }
