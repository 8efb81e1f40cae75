-- ===== src/ConfigCache/Segments.antt =====
-- `cache_frame_in_segment` of src/config_cache.c: which frames a replay serves for a nonce.
use mathlib.Core.Option
use meshtastic_ble_proxy.Base.{
  get_elem?, Option-cases, inl, inr, ℕ, zero, suc, ◌+◌, ◌<◌, ◌≡◌, refl, sym, ◌∙◌, Bool, true, false,
  not, Option, none, some, List, [], ◌∷◌, ◌++◌, arith, ◌==◌, ◌&&◌, ◌||◌, if◌then◌else◌, length,
  take, map, Bytes, append_assoc, length-append, length-take, Bool-cases, inl, inr, select,
  find_index?, get_elem?-append_length, ◌≢◌,
}
use meshtastic_ble_proxy.Nanopb.{Tags, HasDistinctTags}
use meshtastic_ble_proxy.ConfigCache.{
  FrameRef, Cache, cache_frame_at, cache_frame_bytes, cache_frame_in_segment, variant_in_segment,
  mesh_nonce_only_config, mesh_nonce_only_nodes,
}
use meshtastic_ble_proxy.ConfigCache.Layout.{IsValid, refs, is_variant}
use meshtastic_ble_proxy.ConfigCache.Frames.{Frame, frames, frame_at, frame_at-refs}

module _ (tags : Tags) where
  abbrev pub is_nodeinfo : Frame → Bool
  is_nodeinfo f = f.variant == tags.node_info_tag

  -- What a replay may serve at all: no closing frame.
  abbrev pub is_content : Frame → Bool
  is_content f = not (f.variant == tags.config_complete_id_tag)

  -- Every node_info but the first one dropped; the flag says that one was met.
  abbrev pub own_nodes_only : Bool → List Frame → List Frame
  own_nodes_only seen [] = []
  own_nodes_only seen (f ∷ fs) =
      let rest = own_nodes_only (seen || is_nodeinfo f) fs in
      if is_nodeinfo f && seen then rest else f ∷ rest

  -- The frames that a phone's nonce asks for, in the order of the burst.
  abbrev pub segment : ℕ → List Frame → List Frame
  segment nonce fs =
      if nonce == mesh_nonce_only_nodes
      then select is_nodeinfo fs
      else if nonce == mesh_nonce_only_config
      then select is_content (own_nodes_only false fs)
      else select is_content fs

  -- The frame at an index, as a reader takes it.
  abbrev pub read_frame : Cache → ℕ → Option Frame
  read_frame c i =
      Option.map (λ r. record { bytes = take r.len (cache_frame_bytes c r); variant = r.variant })
        (cache_frame_at c i)

  -- What a cursor serves that visits `n` indices from `k` on and skips those out of the segment.
  pub served_from : Cache → ℕ → ℕ → ℕ → List Frame
  served_from c nonce k zero = []
  served_from c nonce k (suc n) =
      let rest = served_from c nonce (k + 1) n in
      if cache_frame_in_segment tags c k nonce
      then elim (read_frame c k) [ none ↦ rest | some f ↦ f ∷ rest ]
      else rest

  -- The same over the index entries.
  abbrev segment_refs : Bytes → Option ℕ → ℕ → ℕ → List FrameRef → List Frame
  segment_refs arena own nonce k [] = []
  segment_refs arena own nonce k (r ∷ rs) =
      let rest = segment_refs arena own nonce (k + 1) rs in
      if variant_in_segment tags own k nonce r.variant then frame_at arena r ∷ rest else rest

  pub in_segment_lem :
      (c : Cache) (nonce k : ℕ) (r : FrameRef)
      → cache_frame_at c k ≡ some r
      → cache_frame_in_segment tags c k nonce
        ≡ variant_in_segment tags c.own_nodeinfo_idx k nonce r.variant
  unfolding cache_frame_in_segment cache_frame_at
  in_segment_lem c nonce k r h = ground arith

  served_from-suc :
      (c : Cache) (nonce k n : ℕ) (r : FrameRef)
      → cache_frame_at c k ≡ some r
      → served_from c nonce k (suc n) ≡ (
          if variant_in_segment tags c.own_nodeinfo_idx k nonce r.variant
          then frame_at c.arena r ∷ served_from c nonce (k + 1) n
          else served_from c nonce (k + 1) n)
  unfolding served_from cache_frame_bytes
  served_from-suc c nonce k n r h = rw (in_segment_lem c nonce k r h, h)

  served_from-refs :
      (c : Cache) (v : IsValid tags c) (nonce : ℕ) (pre rs : List FrameRef)
      → refs c ≡ pre ++ rs
      → served_from c nonce (length pre) (length rs)
        ≡ segment_refs c.arena c.own_nodeinfo_idx nonce (length pre) rs
  unfolding served_from
  served_from-refs c v nonce pre [] e = refl
  served_from-refs c v nonce pre (r ∷ rs) e =
      served_from-suc c nonce (length pre) (length rs) r here
      ∙ rw (
          shift (
            served_from-refs c v nonce (pre ++ r ∷ []) rs (e ∙ sym (append_assoc pre (r ∷ []) rs))))
    where
      here : cache_frame_at c (length pre) ≡ some r
      here = frame_at-refs tags c v (length pre) ∙ rw e (get_elem?-append_length pre r rs)

      shift :
          served_from c nonce (length (pre ++ r ∷ [])) (length rs)
            ≡ segment_refs c.arena c.own_nodeinfo_idx nonce (length (pre ++ r ∷ [])) rs
          → served_from c nonce (length pre + 1) (length rs)
            ≡ segment_refs c.arena c.own_nodeinfo_idx nonce (length pre + 1) rs
      shift h =
          let e' : length (pre ++ r ∷ []) ≡ length pre + 1 =
            omega (arith, length-append pre (r ∷ [])) in
          rw e' at h

  -- The remembered index, seen from index `k` on: one below it, or the first node_info from there.
  abbrev OwnFrom : Option ℕ → ℕ → Bool → List FrameRef → Type 0
  OwnFrom own k true rs = (j : ℕ) × (own ≡ some j) × (j < k)
  OwnFrom own k false rs =
      own ≡ Option.map (λ i. k + i) (find_index? (is_variant tags.node_info_tag) rs)

  OwnFrom-hit :
      (own : Option ℕ) (k : ℕ) (r : FrameRef) (rs : List FrameRef)
      → OwnFrom own k false (r ∷ rs)
      → (r.variant == tags.node_info_tag) ≡ true
      → own ≡ some k
  OwnFrom-hit own k r rs h hit = ground arith

  OwnFrom-miss :
      (own : Option ℕ) (k : ℕ) (r : FrameRef) (rs : List FrameRef)
      → OwnFrom own k false (r ∷ rs)
      → (r.variant == tags.node_info_tag) ≡ false
      → OwnFrom own (k + 1) false rs
  OwnFrom-miss own k r rs h miss = ground arith

  segment_refs-own_nodes :
      (arena : Bytes) (own : Option ℕ) (k : ℕ) (seen : Bool) (rs : List FrameRef)
      → OwnFrom own k seen rs
      → segment_refs arena own mesh_nonce_only_config k rs
        ≡ select is_content (own_nodes_only seen (map (frame_at arena) rs))
  unfolding variant_in_segment
  segment_refs-own_nodes arena own k seen [] h = refl
  segment_refs-own_nodes arena own k true (r ∷ rs) h =
      ground (arith, segment_refs-own_nodes arena own (k + 1) true rs (h.0, h.1, omega arith))
  segment_refs-own_nodes arena own k false (r ∷ rs) h =
      elim (Bool-cases (r.variant == tags.node_info_tag)) [
        | inl hit ↦ ground (
          arith,
          segment_refs-own_nodes arena own (k + 1) true rs
              (k, OwnFrom-hit own k r rs h hit, omega arith),
        )
        | inr miss ↦ ground (
          arith,
          segment_refs-own_nodes arena own (k + 1) false rs (OwnFrom-miss own k r rs h miss),
        )
      ]

  segment_refs-nodes :
      (arena : Bytes) (own : Option ℕ) (k : ℕ) (rs : List FrameRef)
      → tags.node_info_tag ≢ tags.config_complete_id_tag
      → segment_refs arena own mesh_nonce_only_nodes k rs
        ≡ select is_nodeinfo (map (frame_at arena) rs)
  unfolding variant_in_segment
  segment_refs-nodes arena own k [] ne = refl
  segment_refs-nodes arena own k (r ∷ rs) ne =
      ground (arith, segment_refs-nodes arena own (k + 1) rs)

  segment_refs-full :
      (arena : Bytes) (own : Option ℕ) (nonce k : ℕ) (rs : List FrameRef)
      → nonce ≢ mesh_nonce_only_nodes
      → nonce ≢ mesh_nonce_only_config
      → segment_refs arena own nonce k rs ≡ select is_content (map (frame_at arena) rs)
  unfolding variant_in_segment
  segment_refs-full arena own nonce k [] ne ne' = refl
  segment_refs-full arena own nonce k (r ∷ rs) ne ne' =
      ground (arith, segment_refs-full arena own nonce (k + 1) rs ne ne')

  -- A cursor over a valid cache serves exactly the segment of the phone's nonce, in burst order:
  -- for 69421 the node_info frames, for 69420 all but the node_info frames after the first, for any
  -- other nonce everything, and in no case a closing frame.
  pub served_from-segment :
      (c : Cache) (nonce : ℕ)
      → HasDistinctTags tags
      → IsValid tags c
      → served_from c nonce 0 c.count ≡ segment nonce (frames c)
  served_from-segment c nonce d v = ground (
    arith,
    all,
    d.fromradio,
    segment_refs-nodes c.arena c.own_nodeinfo_idx 0 (refs c),
    segment_refs-own_nodes c.arena c.own_nodeinfo_idx 0 false (refs c) own,
    segment_refs-full c.arena c.own_nodeinfo_idx nonce 0 (refs c),
  )
    where
      all : served_from c nonce 0 c.count ≡ segment_refs c.arena c.own_nodeinfo_idx nonce 0 (refs c)
      all =
          let e : length (refs c) ≡ c.count =
            omega (arith, length-take c.count c.index, v.index_size, v.count_max) in
          rw e at (served_from-refs c v nonce [] (refs c) refl)

      own : OwnFrom c.own_nodeinfo_idx 0 false (refs c)
      own = ground arith

  -- The cursor's steps, for a reader that keeps the cache shut.
  in_segment-read :
      (c : Cache) (nonce k : ℕ)
      → cache_frame_in_segment tags c k nonce ≡ true
      → (f : Frame) × (read_frame c k ≡ some f)
  unfolding cache_frame_in_segment cache_frame_at
  in_segment-read c nonce k h = elim (Option-cases (get_elem? c.index k)) [
    | inl e ↦ absurd (ground arith)
    | inr (r, e) ↦
        (record { bytes = take r.len (cache_frame_bytes c r); variant = r.variant }, ground arith)
  ]

  pub served_from-zero : (c : Cache) (nonce k : ℕ) → served_from c nonce k 0 ≡ []
  unfolding served_from
  served_from-zero c nonce k = refl

  pub served_from-hit :
      (c : Cache) (nonce k n : ℕ)
      → cache_frame_in_segment tags c k nonce ≡ true
      → (f : Frame) × (read_frame c k ≡ some f)
        × (served_from c nonce k (suc n) ≡ f ∷ served_from c nonce (k + 1) n)
  unfolding served_from
  served_from-hit c nonce k n h = let (f, e) = in_segment-read c nonce k h in (f, e, rw (h, e))

  pub served_from-miss :
      (c : Cache) (nonce k n : ℕ)
      → cache_frame_in_segment tags c k nonce ≡ false
      → served_from c nonce k (suc n) ≡ served_from c nonce (k + 1) n
  unfolding served_from
  served_from-miss c nonce k n h = rw h
