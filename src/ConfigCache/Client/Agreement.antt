-- ===== src/ConfigCache/Client/Agreement.antt =====
-- The packed store of src/config_cache.c and the plain list, program by program.
use mathlib.Core.Option
use meshtastic_ble_proxy.Base.{
  ℕ, zero, suc, ◌≡◌, refl, ap, ◌∙◌, Bool, true, false, not, Option, none, some, List, [], ◌∷◌,
  arith, ◌==◌, if◌then◌else◌, length, get_elem?, get_elem?-map, take, map, find_index?, Bytes, ok,
  err, enomem, Option-cases, Bool-cases, inl, inr,
}
use meshtastic_ble_proxy.Nanopb.{Tags, HasDistinctTags}
use meshtastic_ble_proxy.ConfigCache.{
  FrameRef, Cache, cache_at_boot, cache_begin, cache_mark_ready, cache_frame_at,
  cache_frame_in_segment, is_index, variant_in_segment,
}
use meshtastic_ble_proxy.ConfigCache.Layout.{
  IsValid, refs, is_variant, at_boot-IsValid, cache_begin-IsValid, cache_add_frame-IsValid,
  mark_ready-IsValid,
}
use meshtastic_ble_proxy.ConfigCache.Frames
use meshtastic_ble_proxy.ConfigCache.Frames.{
  has_room, add, Frame, frames, frame_at, used_count-frames, frames-add_frame, frame_at-refs,
  frame_at-read, frames-at_boot, frames-begin, frames-mark_ready, add_frame-ready,
}
use meshtastic_ble_proxy.ConfigCache.Segments.{in_segment_lem}
use meshtastic_ble_proxy.ConfigCache.QueueStatus.{get_queuestatus-last, last_queuestatus}
use meshtastic_ble_proxy.ConfigCache.Client.{
  CacheCall, begin, mark_ready, is_ready, frame_count, get_queuestatus, add_frame, read_frame,
  in_segment, code, flag, number, frame, queuestatus, Simulates, run, run-Simulates,
}
use meshtastic_ble_proxy.ConfigCache.Client.Listed.{
  packed_call, packed, any_nodeinfo, belongs, shown, Listing, listed_call, listed,
}

module _ (tags : Tags) where
  abbrev tag_test : FrameRef → Bool
  tag_test r = is_variant tags.node_info_tag r

  -- An entry that is a node_info is the remembered one where none stands before it.
  own_index :
      (arena : Bytes) (rs : List FrameRef) (i : ℕ) (r : FrameRef)
      → get_elem? rs i ≡ some r
      → tag_test r ≡ true
      → is_index (find_index? tag_test rs) i
        ≡ not (any_nodeinfo tags (take i (map (frame_at arena) rs)))
  unfolding is_index
  own_index arena [] i r at holds = cc
  own_index arena (q ∷ rs) zero r at holds = ground arith
  own_index arena (q ∷ rs) (suc i) r at holds = ground (arith, own_index arena rs i r at holds)

  module _ (d : HasDistinctTags tags) where
    variant_test :
        (own : Option ℕ) (idx nonce : ℕ) (f : Frame) (before : List Frame)
        → (f.variant ≡ tags.node_info_tag → is_index own idx ≡ not (any_nodeinfo tags before))
        → variant_in_segment tags own idx nonce f.variant ≡ belongs tags before f nonce
    unfolding variant_in_segment
    variant_test own idx nonce f before h = elim (Bool-cases (f.variant == tags.node_info_tag)) [
      | inl node ↦ ground (arith, h (ground arith), d.fromradio)
      | inr other ↦ ground (arith, d.fromradio)
    ]

    missing :
        (c : Cache) (idx nonce : ℕ)
        → cache_frame_at c idx ≡ none
        → cache_frame_in_segment tags c idx nonce ≡ false
    unfolding cache_frame_at cache_frame_in_segment
    missing c idx nonce e = ground arith

    in_segment-frames :
        (c : Cache) (idx nonce : ℕ)
        → IsValid tags c
        → cache_frame_in_segment tags c idx nonce ≡ shown tags (frames c) idx nonce
    in_segment-frames c idx nonce v =
        let at = get_elem?-map (frame_at c.arena) (refs c) idx in
        elim (Option-cases (get_elem? (refs c) idx)) [
          | inl e ↦
              let none_there : cache_frame_at c idx ≡ none = frame_at-refs tags c v idx ∙ e in
              missing c idx nonce none_there ∙ rw (shown, at, e)
          | inr (r, e) ↦
              let there : cache_frame_at c idx ≡ some r = frame_at-refs tags c v idx ∙ e in
              let f : get_elem? (frames c) idx ≡ some (frame_at c.arena r) =
                at ∙ ap (Option.map (frame_at c.arena)) e in
              in_segment_lem tags c nonce idx r there
              ∙ rw (shown, f)
                  (variant_test c.own_nodeinfo_idx idx nonce (frame_at c.arena r)
                    (take idx (frames c))
                    (λ node.
                      rw (v.own_nodeinfo) (own_index c.arena (refs c) idx r e (ground arith))))
        ]

    -- A valid cache stands for its frames.
    pub record StandsFor (c : Cache) (l : Listing) : Type 0 where
      pub valid : IsValid tags c
      pub ready : c.ready ≡ l.ready
      pub frames : Frames.frames c ≡ l.frames

    answers_alike :
        (x : CacheCall) (c : Cache) (l : Listing)
        → StandsFor c l
        → (packed_call tags x c).0 ≡ (listed_call tags x l).0
    unfolding packed_call listed_call
    answers_alike begin c l r = refl
    answers_alike mark_ready c l r = refl
    answers_alike is_ready c l r = ap flag r.ready
    answers_alike frame_count c l r =
        ap number ((used_count-frames tags c r.valid).1 ∙ ap length r.frames)
    answers_alike get_queuestatus c l r =
        ap queuestatus (get_queuestatus-last tags c r.valid ∙ ap (last_queuestatus tags) r.frames)
    answers_alike (add_frame raw variant) c l r =
        let f : Frame = record { bytes = raw; variant = variant } in
        ap code (
          (frames-add_frame tags c r.valid raw variant).0
          ∙ ap (λ fs. if has_room fs f then ok else err enomem) r.frames)
    answers_alike (read_frame idx) c l r =
        ap frame (frame_at-read tags c r.valid idx ∙ ap (λ fs. get_elem? fs idx) r.frames)
    answers_alike (in_segment idx nonce) c l r =
        ap flag
          (in_segment-frames c idx nonce r.valid ∙ ap (λ fs. shown tags fs idx nonce) r.frames)

    stays_alike :
        (x : CacheCall) (c : Cache) (l : Listing)
        → StandsFor c l
        → StandsFor (packed_call tags x c).1 (listed_call tags x l).1
    unfolding packed_call listed_call cache_begin cache_mark_ready
    stays_alike begin c l r = record {
      valid = cache_begin-IsValid tags c r.valid;
      ready = refl;
      frames = frames-begin c;
    }
    stays_alike mark_ready c l r = record {
      valid = mark_ready-IsValid tags c r.valid;
      ready = refl;
      frames = r.frames;
    }
    stays_alike is_ready c l r = r
    stays_alike frame_count c l r = r
    stays_alike get_queuestatus c l r = r
    stays_alike (add_frame raw variant) c l r =
        let f : Frame = record { bytes = raw; variant = variant } in
        record {
          valid = cache_add_frame-IsValid tags c raw variant r.valid;
          ready = add_frame-ready tags c raw variant ∙ r.ready;
          frames = (frames-add_frame tags c r.valid raw variant).1 ∙ ap (λ fs. add fs f) r.frames;
        }
    stays_alike (read_frame idx) c l r = r
    stays_alike (in_segment idx nonce) c l r = r

    pub packed-listed : Simulates (packed tags) (listed tags) StandsFor
    packed-listed = record { answers = answers_alike; stays = stays_alike }

    pub at_boot-StandsFor : StandsFor cache_at_boot (record { ready = false; frames = [] })
    unfolding cache_at_boot
    at_boot-StandsFor = record {
      valid = at_boot-IsValid tags;
      ready = refl;
      frames = frames-at_boot;
    }

    -- With distinct tags, every program of calls on the cache, from boot on, answers what the same
    -- calls answer on a plain list of frames with a ready flag: for adding, counting and reading
    -- frames, for the segments, and for the queueStatus. The list takes a frame while fewer than 128
    -- stand in it and their bytes with it are at most 4096, and it has no arena, index or cursor.
    pub run-packed :
        (xs : List CacheCall)
        → run (packed tags) cache_at_boot xs
          ≡ run (listed tags) (record { ready = false; frames = [] }) xs
    run-packed xs =
        run-Simulates (packed tags) (listed tags) StandsFor packed-listed cache_at_boot
          (record { ready = false; frames = [] }) xs at_boot-StandsFor
