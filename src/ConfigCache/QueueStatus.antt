-- ===== src/ConfigCache/QueueStatus.antt =====
-- `cache_get_queuestatus` of src/config_cache.c against the abstract list of frames.
use mathlib.Core.Option
use meshtastic_ble_proxy.Base.{
  ℕ, ◌≡◌, refl, sym, ◌∙◌, Option, none, some, List, [], ◌∷◌, arith, ◌==◌, take, map, get_elem?,
  get_elem?-take, last?, last_index?, last_index?-none, last_index?-get_elem?, Option-cases, inl,
  inr, length-take,
}
use meshtastic_ble_proxy.Nanopb.{Tags}
use meshtastic_ble_proxy.ConfigCache.{Cache, FrameRef, cache_get_queuestatus}
use meshtastic_ble_proxy.ConfigCache.Layout.{IsValid, refs, is_variant}
use meshtastic_ble_proxy.ConfigCache.Frames.{Frame, frames, frame_at}

-- The bytes of the last queueStatus of a burst.
abbrev pub last_queuestatus : Tags → List Frame → Option (List ℕ)
last_queuestatus tags fs =
    Option.map (λ f. f.bytes) (last? (λ (f : Frame). f.variant == tags.queue_status_tag) fs)

last?-frames :
    (arena : List ℕ) (tag : ℕ) (rs : List FrameRef)
    → last? (λ (f : Frame). f.variant == tag) (map (frame_at arena) rs)
      ≡ Option.map (frame_at arena) (last? (is_variant tag) rs)
last?-frames arena tag [] = refl
last?-frames arena tag (r ∷ rs) = ground (arith, last?-frames arena tag rs)

-- The pointer and the length that are given out are those of the last queueStatus among the cached
-- frames, and the answer is false exactly when there is none.
pub get_queuestatus-last :
    (tags : Tags) (c : Cache)
    → IsValid tags c
    → Option.map (λ r. take r.1 r.0) (cache_get_queuestatus c) ≡ last_queuestatus tags (frames c)
unfolding cache_get_queuestatus
get_queuestatus-last tags c v =
    let tag = is_variant tags.queue_status_tag in
    elim (Option-cases (last_index? tag (refs c))) [
      | inl e ↦
          let unset : c.queuestatus_idx ≡ none = v.queuestatus ∙ e in
          ground (
            arith,
            last?-frames c.arena tags.queue_status_tag (refs c),
            last_index?-none tag (refs c) e,
          )
      | inr (i, e) ↦
          let (r, lt, at, last) = last_index?-get_elem? tag (refs c) i e in
          let index : c.queuestatus_idx ≡ some i = v.queuestatus ∙ e in
          let stored : get_elem? c.index i ≡ some r =
            sym (get_elem?-take c.count c.index i (omega (arith, length-take c.count c.index)))
            ∙ at in
          ground (arith, last?-frames c.arena tags.queue_status_tag (refs c))
    ]
