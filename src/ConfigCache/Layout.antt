-- ===== src/ConfigCache/Layout.antt =====
-- The representation invariant of src/config_cache.c: frames are packed back to back, the counters
-- agree with the index, and the two remembered indices are right.
use meshtastic_ble_proxy.Base.{
  ℕ, suc, ◌+◌, ◌%◌, ◌^◌, ◌≤◌, ◌<◌, ◌≡◌, refl, sym, ap, ◌∙◌, Bool, List, [], ◌∷◌, ◌++◌, arith, ◌==◌,
  length, take, take-suc-set, length-take, length-set, length-replicate, length-copy_at,
  find_index?, last_index?, find_index?-snoc, last_index?-snoc,
}
use meshtastic_ble_proxy.Nanopb.{Tags}
use meshtastic_ble_proxy.ConfigCache.{
  FrameRef, Cache, cache_at_boot, cache_begin, cache_add_frame, cache_mark_ready, store_frame,
  config_cache_arena_bytes, config_cache_max_frames,
}

-- The frames follow each other from one offset to another.
abbrev pub Packs : ℕ → List FrameRef → ℕ → Type 0
Packs start [] end = start ≡ end
Packs start (r ∷ rs) end = (r.offset ≡ start) × Packs (start + r.len) rs end

-- The index entries in use.
abbrev pub refs : Cache → List FrameRef
refs c = take c.count c.index

abbrev pub is_variant : ℕ → FrameRef → Bool
is_variant tag r = r.variant == tag

pub record IsValid (tags : Tags) (c : Cache) : Type 0 where
  pub arena_size : length c.arena ≡ config_cache_arena_bytes
  pub index_size : length c.index ≡ config_cache_max_frames
  pub count_max : c.count ≤ config_cache_max_frames
  pub used_max : c.used ≤ config_cache_arena_bytes
  pub packed : Packs 0 (refs c) c.used
  pub queuestatus : c.queuestatus_idx ≡ last_index? (is_variant tags.queue_status_tag) (refs c)
  pub own_nodeinfo : c.own_nodeinfo_idx ≡ find_index? (is_variant tags.node_info_tag) (refs c)

Packs-snoc :
    (start : ℕ) (rs : List FrameRef) (end : ℕ) (r : FrameRef)
    → Packs start rs end
    → r.offset ≡ end
    → Packs start (rs ++ r ∷ []) (end + r.len)
Packs-snoc start [] end r h e = (e ∙ sym h, ap (λ k. k + r.len) h)
Packs-snoc start (x ∷ rs) end r h e = (h.0, Packs-snoc (start + x.len) rs end r h.1 e)

module _ (tags : Tags) where
  pub at_boot-IsValid : IsValid tags cache_at_boot
  unfolding cache_at_boot
  at_boot-IsValid = record {
    arena_size = length-replicate {A = ℕ} config_cache_arena_bytes 0;
    index_size = refl;
    count_max = omega arith;
    used_max = omega arith;
    packed = refl;
    queuestatus = refl;
    own_nodeinfo = refl;
  }

  -- A fresh burst starts from a valid cache, whatever was in it.
  pub cache_begin-IsValid : (c : Cache) → IsValid tags c → IsValid tags (cache_begin c)
  unfolding cache_begin
  cache_begin-IsValid c v = record {
    arena_size = v.arena_size;
    index_size = v.index_size;
    count_max = omega arith;
    used_max = omega arith;
    packed = refl;
    queuestatus = refl;
    own_nodeinfo = refl;
  }

  pub mark_ready-IsValid : (c : Cache) → IsValid tags c → IsValid tags (cache_mark_ready c)
  unfolding cache_mark_ready
  mark_ready-IsValid c v = record {
    arena_size = v.arena_size;
    index_size = v.index_size;
    count_max = v.count_max;
    used_max = v.used_max;
    packed = v.packed;
    queuestatus = v.queuestatus;
    own_nodeinfo = v.own_nodeinfo;
  }

  module _ (c : Cache) (raw : List ℕ) (variant : ℕ) (v : IsValid tags c)
      (room : c.count < config_cache_max_frames)
      (fits : c.used + length raw ≤ config_cache_arena_bytes) where
    abbrev pub new_ref : FrameRef
    new_ref = record { offset = c.used; len = length raw; variant = variant }

    pub refs-store_frame : refs (store_frame tags c raw variant) ≡ refs c ++ new_ref ∷ []
    unfolding store_frame
    refs-store_frame =
        let e : (c.count + 1) % 2 ^ 16 ≡ suc c.count = omega arith in
        rw e (take-suc-set c.index c.count _ (omega arith))

    length-refs : length (refs c) ≡ c.count
    length-refs = omega (arith, length-take c.count c.index)

    store_frame_used : (store_frame tags c raw variant).used ≡ c.used + length raw
    unfolding store_frame
    store_frame_used = omega arith

    store_frame_sizes :
        let d = store_frame tags c raw variant in
        (length d.arena ≡ config_cache_arena_bytes)
        × (length d.index ≡ config_cache_max_frames)
        × (d.count ≡ c.count + 1)
    unfolding store_frame
    store_frame_sizes = (
      length-copy_at c.arena c.used raw ∙ v.arena_size,
      length-set c.index c.count _ ∙ v.index_size,
      omega arith,
    )

    store_frame_packed :
        Packs 0 (refs (store_frame tags c raw variant)) (store_frame tags c raw variant).used
    store_frame_packed =
        rw (refs-store_frame, store_frame_used) (Packs-snoc 0 (refs c) c.used new_ref v.packed refl)

    store_frame_queuestatus :
        (store_frame tags c raw variant).queuestatus_idx
        ≡ last_index? (is_variant tags.queue_status_tag) (refs (store_frame tags c raw variant))
    unfolding store_frame
    store_frame_queuestatus = ground (
      arith,
      refs-store_frame,
      length-refs,
      v.queuestatus,
      last_index?-snoc (is_variant tags.queue_status_tag) (refs c) new_ref,
    )

    store_frame_own_nodeinfo :
        (store_frame tags c raw variant).own_nodeinfo_idx
        ≡ find_index? (is_variant tags.node_info_tag) (refs (store_frame tags c raw variant))
    unfolding store_frame
    store_frame_own_nodeinfo = ground (
      arith,
      refs-store_frame,
      length-refs,
      v.own_nodeinfo,
      find_index?-snoc (is_variant tags.node_info_tag) (refs c) new_ref,
    )

    store_frame-IsValid : IsValid tags (store_frame tags c raw variant)
    store_frame-IsValid = record {
      arena_size = store_frame_sizes.0;
      index_size = store_frame_sizes.1;
      count_max = omega (arith, store_frame_sizes);
      used_max = omega (arith, store_frame_used);
      packed = store_frame_packed;
      queuestatus = store_frame_queuestatus;
      own_nodeinfo = store_frame_own_nodeinfo;
    }

  -- Adding a frame keeps the layout, whether the frame is stored or refused.
  pub cache_add_frame-IsValid :
      (c : Cache) (raw : List ℕ) (variant : ℕ)
      → IsValid tags c
      → IsValid tags (cache_add_frame tags c raw variant).1
  unfolding cache_add_frame
  cache_add_frame-IsValid c raw variant v = grind (arith, store_frame-IsValid)
