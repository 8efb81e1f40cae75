-- ===== src/Ble/Reads/Drain.antt =====
-- The live part of the reads in src/ble_gatt.c: the packets that wait, and their place behind a
-- replay.
use meshtastic_ble_proxy.Base.{
  ℕ, zero, suc, ◌+◌, ◌%◌, ◌≡◌, ◌≢◌, refl, sym, ap, ◌∙◌, List, [], ◌∷◌, ◌++◌, arith, length, take,
  map, Bytes, get_or,
}
use meshtastic_ble_proxy.Nanopb.{Tags, HasDistinctTags}
use meshtastic_ble_proxy.ConfigCache.{Cache}
use meshtastic_ble_proxy.ConfigCache.Layout.{IsValid}
use meshtastic_ble_proxy.ConfigCache.Frames.{frames}
use meshtastic_ble_proxy.ConfigCache.Segments.{segment}
use meshtastic_ble_proxy.Ble.State.{replaying, active, ProxyConn, fromradio_queue_depth}
use meshtastic_ble_proxy.Ble.Queue.Fifo.{waiting}
use meshtastic_ble_proxy.Ble.Reads.{stage}
use meshtastic_ble_proxy.Ble.Reads.Replay.{fresh_reads, replay-serves_segment}

module _ (tags : Tags) (cache : Cache) where
  -- A fresh read outside a replay.
  pub stage-pop :
      (pc : ProxyConn) (n : ℕ)
      → pc.state ≢ replaying
      → pc.count ≡ suc n
      → stage tags cache pc ≡ record pc {
        staged = get_or pc.queue pc.head [];
        head = (pc.head + 1) % fromradio_queue_depth;
        count = n;
      }
  unfolding stage
  stage-pop pc n st e = ground arith

  pub stage-empty :
      (pc : ProxyConn)
      → pc.state ≢ replaying
      → pc.count ≡ 0
      → stage tags cache pc ≡ record pc { staged = [] }
  unfolding stage
  stage-empty pc st e = ground arith

  -- A phone outside a replay that reads on is given the packets that wait for it, each once and
  -- oldest first, then nothing; none waits then.
  pub reads-drain :
      (n : ℕ) (pc : ProxyConn)
      → pc.state ≢ replaying
      → pc.count ≡ n
      → let (given, end) = fresh_reads tags cache (n + 1) pc in
        (given ≡ waiting pc ++ [] ∷ []) × (end.count ≡ 0)
  reads-drain zero pc st e =
      let none_wait : waiting pc ≡ [] = rw e in
      rw (stage-empty pc st e) (ap (λ ws. ws ++ [] ∷ []) (sym none_wait), e)
  reads-drain (suc n) pc st e =
      let one_more : suc n + 1 ≡ suc (n + 1) = omega arith in
      let x = get_or pc.queue pc.head [] in
      let q = record pc { staged = x; head = (pc.head + 1) % fromradio_queue_depth; count = n } in
      let first_waits : waiting pc ≡ x ∷ waiting q = rw e in
      let (later, empty) = reads-drain n q st refl in
      let first : fresh_reads tags cache (suc n + 1) pc
          ≡ (x ∷ (fresh_reads tags cache (n + 1) q).0, (fresh_reads tags cache (n + 1) q).1) =
        rw one_more (
          ap {B = List Bytes × ProxyConn}
            (λ s. (
              s.staged ∷ (fresh_reads tags cache (n + 1) s).0,
              (fresh_reads tags cache (n + 1) s).1,
            ))
            (stage-pop pc n st e)) in
      rw first (ap (◌∷◌ x) later ∙ ap (λ ws. ws ++ [] ∷ []) (sym first_waits), empty)

  fresh_reads-add :
      (m n : ℕ) (pc : ProxyConn)
      → fresh_reads tags cache (m + n) pc ≡ (
          let (first, mid) = fresh_reads tags cache m pc in
          let (later, end) = fresh_reads tags cache n mid in (first ++ later, end))
  fresh_reads-add zero n pc = let e : 0 + n ≡ n = omega arith in rw e
  fresh_reads-add (suc m) n pc =
      let e : suc m + n ≡ suc (m + n) = omega arith in
      let q = stage tags cache pc in
      rw e (ap {B = List Bytes × ProxyConn} (λ r. (q.staged ∷ r.0, r.1)) (fresh_reads-add m n q))

  -- With distinct tags and a well-formed cache, a phone at the start of its replay that reads on is
  -- given its segment of the cache and its closing frame, then one empty answer, and only then the
  -- live packets that wait, each once and oldest first, and nothing after them.
  pub replay_then_live :
      (pc : ProxyConn)
      → HasDistinctTags tags
      → IsValid tags cache
      → pc.state ≡ replaying
      → pc.replay_cursor ≡ 0
      → let seg = segment tags pc.nonce (frames cache) in
        (fresh_reads tags cache ((length seg + 2) + (pc.count + 1)) pc).0
        ≡ (map (λ f. f.bytes) seg ++ take pc.cc_len pc.cc_frame ∷ [] ∷ [])
          ++ (waiting pc ++ [] ∷ [])
  replay_then_live pc d v st cursor =
      let n = length (segment tags pc.nonce (frames cache)) + 2 in
      let e = replay-serves_segment tags cache pc d v st cursor in
      let q = record pc { state = active; staged = []; replay_cursor = cache.count + 1 } in
      rw (fresh_reads-add n (pc.count + 1) pc, e)
        (ap
          (λ ws.
            (map (λ f. f.bytes) (segment tags pc.nonce (frames cache))
              ++ take pc.cc_len pc.cc_frame ∷ [] ∷ [])
            ++ ws)
          (reads-drain pc.count q (λ h. ground arith) refl).0)
