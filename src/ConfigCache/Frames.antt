-- ===== src/ConfigCache/Frames.antt =====
-- What src/config_cache.c promises: a list of frames, in the order of the burst, bounded by the
-- arena and the index. The packed arena refines it.
use meshtastic_ble_proxy.Base.{
  take, sym, get_elem?, get_elem?-map, get_elem?-take, get_elem?-none, ℕ, ◌+◌, ◌≤◌, ◌<◌, ◌≡◌, refl,
  ap, ap₂, ◌∙◌, Bool, List, [], ◌∷◌, ◌++◌, arith, ltb, leb, ◌&&◌, if◌then◌else◌, length, drop, map,
  map-append, slice, slice-copy_at, slice-copy_at_self, length-drop, copy_at, Bytes, length-map,
  length-take, ok, err, enomem,
}
use meshtastic_ble_proxy.Nanopb.{Tags}
use mathlib.Core.Option
use meshtastic_ble_proxy.ConfigCache.{
  cache_at_boot, cache_mark_ready, cache_begin, cache_frame_at, cache_frame_bytes, FrameRef, Cache,
  cache_add_frame, store_frame, config_cache_arena_bytes, config_cache_max_frames,
}
use meshtastic_ble_proxy.ConfigCache.Layout.{IsValid, Packs, refs, refs-store_frame}

pub record Frame : Type 0 where
  pub bytes : Bytes
  pub variant : ℕ

abbrev pub frame_at : Bytes → FrameRef → Frame
frame_at arena r = record { bytes = slice r.offset r.len arena; variant = r.variant }

-- The abstract view of a cache.
abbrev pub frames : Cache → List Frame
frames c = map (frame_at c.arena) (refs c)

abbrev pub total_bytes : List Frame → ℕ
total_bytes [] = 0
total_bytes (f ∷ fs) = length f.bytes + total_bytes fs

-- The promised behaviour: a frame is appended while the index and the arena have room.
abbrev pub has_room : List Frame → Frame → Bool
has_room fs f =
    ltb (length fs) config_cache_max_frames
    && leb (total_bytes fs + length f.bytes) config_cache_arena_bytes

abbrev pub add : List Frame → Frame → List Frame
add fs f = if has_room fs f then fs ++ f ∷ [] else fs

Packs-le : (start : ℕ) (rs : List FrameRef) (end : ℕ) → Packs start rs end → start ≤ end
Packs-le start [] end p = omega arith
Packs-le start (r ∷ rs) end p = omega (arith, Packs-le (start + r.len) rs end p.1)

-- Frames that end at or below the place of a write are left by it.
frames-copy_at :
    (arena : Bytes) (start : ℕ) (rs : List FrameRef) (end : ℕ) (raw : Bytes)
    → Packs start rs end
    → map (frame_at (copy_at arena end raw)) rs ≡ map (frame_at arena) rs
frames-copy_at arena start [] end raw p = refl
frames-copy_at arena start (r ∷ rs) end raw p =
    ap₂ ◌∷◌
      (ap (λ bs. record { bytes = bs; variant = r.variant })
        (slice-copy_at arena end r.offset r.len raw
          (omega (arith, Packs-le (start + r.len) rs end p.1))))
      (frames-copy_at arena (start + r.len) rs end raw p.1)

length-slice : (off n : ℕ) (xs : Bytes) → off + n ≤ length xs → length (slice off n xs) ≡ n
length-slice off n xs h = omega (arith, length-take n (drop off xs), length-drop off xs)

total_bytes-Packs :
    (arena : Bytes) (start : ℕ) (rs : List FrameRef) (end : ℕ)
    → Packs start rs end
    → end ≤ length arena
    → start + total_bytes (map (frame_at arena) rs) ≡ end
total_bytes-Packs arena start [] end p h = omega arith
total_bytes-Packs arena start (r ∷ rs) end p h = omega (
  arith,
  Packs-le (start + r.len) rs end p.1,
  total_bytes-Packs arena (start + r.len) rs end p.1,
  length-slice r.offset r.len arena,
)

module _ (tags : Tags) (c : Cache) (v : IsValid tags c) where
  -- The counters are those of the abstract view.
  pub used_count-frames : (c.used ≡ total_bytes (frames c)) × (c.count ≡ length (frames c))
  used_count-frames = (
    omega (arith, total_bytes-Packs c.arena 0 (refs c) c.used v.packed, v.arena_size, v.used_max),
    omega (
      arith,
      length-map (refs c) (frame_at c.arena),
      length-take c.count c.index,
      v.index_size,
      v.count_max,
    ),
  )

  frames-store_frame :
      (raw : Bytes) (variant : ℕ)
      → c.count < config_cache_max_frames
      → c.used + length raw ≤ config_cache_arena_bytes
      → frames (store_frame tags c raw variant)
        ≡ frames c ++ record { bytes = raw; variant = variant } ∷ []
  unfolding store_frame
  frames-store_frame raw variant room fits =
      ap (map (frame_at (copy_at c.arena c.used raw)))
        (refs-store_frame tags c raw variant v room fits)
      ∙ map-append (frame_at (copy_at c.arena c.used raw)) (refs c) _
      ∙ ap₂ ◌++◌ (frames-copy_at c.arena 0 (refs c) c.used raw v.packed) (
          ap (λ bs. record { bytes = bs; variant = variant } ∷ [])
            (slice-copy_at_self c.arena c.used raw (omega (arith, v.arena_size))))

  -- Adding a frame appends it to the frames while both bounds leave room, and answers -ENOMEM and
  -- changes no frame otherwise.
  pub frames-add_frame :
      (raw : Bytes) (variant : ℕ)
      → let f : Frame = record { bytes = raw; variant = variant } in
        let (rc, d) = cache_add_frame tags c raw variant in
        (rc ≡ (if has_room (frames c) f then ok else err enomem)) × (frames d ≡ add (frames c) f)
  unfolding cache_add_frame
  frames-add_frame raw variant = ground (arith, used_count-frames, frames-store_frame raw variant)

  pub frame_at-refs : (idx : ℕ) → cache_frame_at c idx ≡ get_elem? (refs c) idx
  unfolding cache_frame_at
  frame_at-refs idx = ground (
    arith,
    get_elem?-take c.count c.index idx,
    get_elem?-none (refs c) idx,
    length-take c.count c.index,
  )

  -- Looking an index up and reading as many bytes as its entry says gives the frame at that place,
  -- and NULL exactly where there is none.
  pub frame_at-read :
      (idx : ℕ)
      → Option.map
          (λ r. record { bytes = take r.len (cache_frame_bytes c r); variant = r.variant })
          (cache_frame_at c idx)
        ≡ get_elem? (frames c) idx
  unfolding cache_frame_bytes
  frame_at-read idx =
      ap (Option.map (frame_at c.arena)) (frame_at-refs idx)
      ∙ sym (get_elem?-map (frame_at c.arena) (refs c) idx)

-- Publishing leaves the frames.
pub frames-mark_ready : (c : Cache) → frames (cache_mark_ready c) ≡ frames c
unfolding cache_mark_ready
frames-mark_ready c = refl

pub frames-at_boot : frames cache_at_boot ≡ []
unfolding cache_at_boot
frames-at_boot = refl

-- A fresh burst starts with none.
pub frames-begin : (c : Cache) → frames (cache_begin c) ≡ []
unfolding cache_begin
frames-begin c = refl

-- Adding a frame leaves the ready flag.
pub add_frame-ready :
    (tags : Tags) (c : Cache) (raw : Bytes) (variant : ℕ)
    → (cache_add_frame tags c raw variant).1.ready ≡ c.ready
unfolding cache_add_frame store_frame
add_frame-ready tags c raw variant = ground arith
