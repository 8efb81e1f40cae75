-- ===== src/Ble/Reads/Replay.antt =====
-- The serve-on-read replay of src/ble_gatt.c: what a phone is given by reading until it is told
-- that nothing is left.

use meshtastic_ble_proxy.Base.{
  ℕ, zero, suc, ◌+◌, ◌-◌, ◌≤◌, ◌<◌, ◌≡◌, refl, ap, some, List, [], ◌∷◌, ◌++◌, arith, length, take,
  map, Bytes, Bool-cases, inl, inr, Option-cases,
}
use meshtastic_ble_proxy.Nanopb.{Tags, HasDistinctTags}
use meshtastic_ble_proxy.ConfigCache.{Cache, cache_frame_at, cache_frame_in_segment}
use meshtastic_ble_proxy.ConfigCache.Layout.{IsValid}
use meshtastic_ble_proxy.ConfigCache.Frames.{Frame, frames}
use meshtastic_ble_proxy.ConfigCache.Segments.{
  segment, read_frame, served_from, served_from-segment, served_from-zero, served_from-hit,
  served_from-miss,
}
use meshtastic_ble_proxy.Ble.State.{replaying, active, ProxyConn}
use meshtastic_ble_proxy.Ble.Reads.{stage, skip_frames, frame_bytes}

module _ (tags : Tags) (cache : Cache) where
  -- What `n` fresh reads stage, one after the other.
  abbrev pub fresh_reads : ℕ → ProxyConn → List Bytes × ProxyConn
  fresh_reads zero pc = ([], pc)
  fresh_reads (suc n) pc =
      let pc' = stage tags cache pc in
      let (later, end) = fresh_reads n pc' in (pc'.staged ∷ later, end)

  -- Where the skipping loop stops: at the next frame to serve, or behind the last one.
  abbrev Next : ℕ → List Frame → ℕ → Type 0
  Next k [] j = j ≡ cache.count
  Next k (f ∷ fs) j =
      (j < cache.count)
      × (read_frame tags cache j ≡ some f)
      × (served_from tags cache k (j + 1) (cache.count - (j + 1)) ≡ fs)

  skip_frames-Next :
      (nonce k n : ℕ)
      → k + n ≡ cache.count
      → Next nonce (served_from tags cache nonce k n) (skip_frames tags cache nonce k n)
  unfolding skip_frames
  skip_frames-Next nonce k zero e = rw (served_from-zero tags cache nonce k) (omega arith)
  skip_frames-Next nonce k (suc n) e =
      elim (Bool-cases (cache_frame_in_segment tags cache k nonce)) [
        | inl hit ↦
            let (f, read, e') = served_from-hit tags cache nonce k n hit in
            let rest : cache.count - (k + 1) ≡ n = omega arith in
            rw (e', hit) (omega arith, read, rw rest)
        | inr miss ↦
            rw (served_from-miss tags cache nonce k n miss, miss)
              (skip_frames-Next nonce (k + 1) n (omega arith))
      ]

  frame_bytes_lem :
      (j : ℕ) (f : Frame) → read_frame tags cache j ≡ some f → frame_bytes cache j ≡ f.bytes
  unfolding frame_bytes
  frame_bytes_lem j f h = elim (Option-cases (cache_frame_at cache j)) [
    | inl e ↦ absurd (ground arith)
    | inr (r, e) ↦ ground arith
  ]

  module _ (small : cache.count ≤ 128) where
    abbrev cc : ProxyConn → Bytes
    cc pc = take pc.cc_len pc.cc_frame

    -- One fresh read of a phone in replay.
    stage-frame :
        (pc : ProxyConn) (f : Frame) (fs : List Frame) (k : ℕ)
        → pc.state ≡ replaying
        → pc.replay_cursor ≡ k
        → k ≤ cache.count
        → served_from tags cache pc.nonce k (cache.count - k) ≡ f ∷ fs
        → (j : ℕ) × (j < cache.count)
          × (stage tags cache pc ≡ record pc { staged = f.bytes; replay_cursor = j + 1 })
          × (served_from tags cache pc.nonce (j + 1) (cache.count - (j + 1)) ≡ fs)
    unfolding stage
    stage-frame pc f fs k replay cursor le e =
        let j = skip_frames tags cache pc.nonce k (cache.count - k) in
        let next : Next pc.nonce (f ∷ fs) j =
          rw e at (skip_frames-Next pc.nonce k (cache.count - k) (omega arith)) in
        (j, next.0, ground (arith, next.0, frame_bytes_lem j f next.1), next.2)

    stage-close :
        (pc : ProxyConn) (k : ℕ)
        → pc.state ≡ replaying
        → pc.replay_cursor ≡ k
        → k ≤ cache.count
        → served_from tags cache pc.nonce k (cache.count - k) ≡ []
        → stage tags cache pc ≡ record pc { staged = cc pc; replay_cursor = cache.count + 1 }
    unfolding stage
    stage-close pc k replay cursor le e =
        let next : Next pc.nonce [] (skip_frames tags cache pc.nonce k (cache.count - k)) =
          rw e at (skip_frames-Next pc.nonce k (cache.count - k) (omega arith)) in
        ground (arith, next)

    stage-end :
        (pc : ProxyConn)
        → pc.state ≡ replaying
        → pc.replay_cursor ≡ cache.count + 1
        → stage tags cache pc ≡ record pc { staged = []; state = active }
    unfolding stage skip_frames
    stage-end pc replay cursor =
        let past : cache.count - (cache.count + 1) ≡ 0 = omega arith in ground (arith, past)

    -- The reads from a cursor on.
    reads_from :
        (fs : List Frame) (pc : ProxyConn) (k : ℕ)
        → pc.state ≡ replaying
        → pc.replay_cursor ≡ k
        → k ≤ cache.count
        → served_from tags cache pc.nonce k (cache.count - k) ≡ fs
        → fresh_reads (length fs + 2) pc ≡ (
          map (λ f. f.bytes) fs ++ cc pc ∷ [] ∷ [],
          record pc { state = active; staged = []; replay_cursor = cache.count + 1 },
        )
    reads_from [] pc k replay cursor le e =
        let closed = record pc { staged = cc pc; replay_cursor = cache.count + 1 } in
        rw (stage-close pc k replay cursor le e, stage-end closed replay refl)
    reads_from (f ∷ fs) pc k replay cursor le e =
        let (j, lt, step, rest) = stage-frame pc f fs k replay cursor le e in
        let q = record pc { staged = f.bytes; replay_cursor = j + 1 } in
        let one_more : suc (length fs) + 2 ≡ suc (length fs + 2) = omega arith in
        rw (one_more, step)
          (ap {B = List Bytes × ProxyConn} (λ r. (f.bytes ∷ r.0, r.1))
            (reads_from fs q (j + 1) replay refl (omega arith) rest))

  -- A phone in replay that reads on is given, one to a read, exactly the cached frames of its
  -- nonce's segment in the order of the burst, then the closing frame that was encoded for it, then
  -- nothing, and is active then. Its queue of live packets and all else in its slot are as before.
  pub replay-serves_segment :
      (pc : ProxyConn)
      → HasDistinctTags tags
      → IsValid tags cache
      → pc.state ≡ replaying
      → pc.replay_cursor ≡ 0
      → let seg = segment tags pc.nonce (frames cache) in
        fresh_reads (length seg + 2) pc ≡ (
          map (λ f. f.bytes) seg ++ take pc.cc_len pc.cc_frame ∷ [] ∷ [],
          record pc { state = active; staged = []; replay_cursor = cache.count + 1 },
        )
  replay-serves_segment pc d v replay cursor =
      reads_from v.count_max (segment tags pc.nonce (frames cache)) pc 0 replay cursor (omega arith)
        (rw all (served_from-segment tags cache pc.nonce d v))
    where
      all : cache.count - 0 ≡ cache.count
      all = omega arith
