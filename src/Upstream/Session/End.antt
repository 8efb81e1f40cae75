-- ===== src/Upstream/Session/End.antt =====
-- The config burst's end in src/upstream_session.c: the session goes live and serves who waits.
use meshtastic_ble_proxy.Base.{
  ℕ, ◌≡◌, refl, sym, ◌∙◌, arith, List, [], ◌∷◌, ◌++◌, Bool, true, All, length, subst, ap₂,
}
use meshtastic_ble_proxy.Nanopb.{Nanopb}
use meshtastic_ble_proxy.ConfigCache.{Cache, cache_mark_ready}
use meshtastic_ble_proxy.ConfigCache.Layout.{IsValid, mark_ready-IsValid}
use meshtastic_ble_proxy.ConfigCache.Frames.{Frame, frames}
use meshtastic_ble_proxy.Upstream.{
  Upstream, fetching, cache_ready, live, finish, upstream_on_fromradio, serve_each,
  serve_one_pending, serve_pending_phones,
}
use meshtastic_ble_proxy.Upstream.Phase0.{phase0_account}
use meshtastic_ble_proxy.Upstream.Session.{Incoming, cached, feed, serve_all, IsEnd, IsOpen}
use meshtastic_ble_proxy.Upstream.Session.Fetching.{feed-IsFetching}

module _ {S : Type 0} (serve : ℕ → ℕ → S → S) (pb : Nanopb) where
  feed-append :
      (u : Upstream) (cache : Cache) (s : S) (burst rest : List Incoming)
      → feed serve pb u cache s (burst ++ rest)
        ≡ (let (v, d, t) = feed serve pb u cache s burst in feed serve pb v d t rest)
  unfolding feed
  feed-append u cache s [] rest = refl
  feed-append u cache s (f ∷ burst) rest =
      let (consumed, v, d, t) = upstream_on_fromradio serve pb u cache s f.payload f.info in
      feed-append v d t burst rest

  serve_each-all :
      (u : Upstream) (conns : List ℕ) (s : S)
      → u.serve_cb ≡ true
      → serve_each serve u conns s ≡ serve_all serve pb conns s
  unfolding serve_each serve_all serve_one_pending
  serve_each-all u [] s h = refl
  serve_each-all u (conn ∷ conns) s h = ground (arith, serve_each-all u conns (serve conn 0 s))

  -- How the session stands after the burst's end.
  pub record IsServed (u : Upstream) (s : S) (fs : List Frame) (v : Upstream) (c : Cache) (t : S)
      : Type 0 where
    pub state : v.state ≡ live
    pub pending : v.pending ≡ []
    pub completed : v.stats.config_complete_id ≡ u.nonce
    pub ready : c.ready ≡ true
    pub valid : IsValid pb.tags c
    pub held : frames c ≡ fs
    pub phones : t ≡ serve_all serve pb u.pending s

  abbrev Served : Upstream → S → List Frame → Bool × Upstream × Cache × S → Type 0
  Served u s fs (consumed, v, c, t) = IsServed u s fs v c t

  pub on_fromradio-end :
      (u : Upstream) (cache : Cache) (s : S) (f : Incoming)
      → u.state ≡ fetching
      → IsEnd serve pb u.nonce f
      → upstream_on_fromradio serve pb u cache s f.payload f.info ≡ (
        true,
        (finish serve pb u cache s (length f.payload) f.info.which_variant u.nonce).0,
        (finish serve pb u cache s (length f.payload) f.info.which_variant u.nonce).1,
        (finish serve pb u cache s (length f.payload) f.info.which_variant u.nonce).2,
      )
  unfolding upstream_on_fromradio
  on_fromradio-end u cache s f st h = ground arith

  pub end-IsServed :
      (u : Upstream) (cache : Cache) (s : S) (f : Incoming)
      → u.state ≡ fetching
      → u.serve_cb ≡ true
      → IsValid pb.tags cache
      → IsEnd serve pb u.nonce f
      → let (v, d, t) = feed serve pb u cache s (f ∷ []) in IsServed u s (frames cache) v d t
  unfolding feed finish serve_pending_phones cache_mark_ready
  end-IsServed u cache s f st cb v h =
      subst (Served u s (frames cache)) (sym (on_fromradio-end u cache s f st h)) (record {
        state = refl;
        pending = refl;
        completed = refl;
        ready = refl;
        valid = mark_ready-IsValid pb.tags cache v;
        held = refl;
        phones =
            serve_each-all
              (record u {
                stats =
                    record (phase0_account pb.tags u.stats f.info.which_variant
                      (length f.payload)) { config_complete_id = u.nonce };
                state = cache_ready;
              })
              u.pending s cb;
      })

  -- While the session fetches, with a callback registered and a well-formed cache, after frames of
  -- any number and content that do not end the burst and then the closing frame of the session's
  -- nonce, the session is live, its cache is ready and holds the frames of the burst, and each
  -- phone that waited has been told to replay, in the order in which they came, and waits no
  -- longer.
  pub feed-IsServed :
      (u : Upstream) (cache : Cache) (s : S) (burst : List Incoming) (f : Incoming)
      → u.state ≡ fetching
      → u.serve_cb ≡ true
      → IsValid pb.tags cache
      → All (IsOpen serve pb u.nonce) burst
      → IsEnd serve pb u.nonce f
      → let (u', cache', s') = feed serve pb u cache s (burst ++ f ∷ []) in
        IsServed u s (cached pb.tags (frames cache) burst) u' cache' s'
  feed-IsServed u cache s burst f st cb v h k =
      let (w, d, t) = feed serve pb u cache s burst in
      let a = feed-IsFetching serve pb u cache s burst st v h in
      let b =
        end-IsServed w d t f a.state (a.serve_cb ∙ cb) a.valid
          (subst (λ n. IsEnd serve pb n f) (sym a.nonce) k) in
      subst (λ r. IsServed u s (cached pb.tags (frames cache) burst) r.0 r.1 r.2)
        (sym (feed-append u cache s burst (f ∷ [])))
        (record {
          state = b.state;
          pending = b.pending;
          completed = b.completed ∙ a.nonce;
          ready = b.ready;
          valid = b.valid;
          held = b.held ∙ a.held;
          phones = b.phones ∙ ap₂ (serve_all serve pb) a.pending a.phones;
        })
