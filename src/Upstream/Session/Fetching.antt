-- ===== src/Upstream/Session/Fetching.antt =====
-- The config burst in src/upstream_session.c up to its end: what the session and its cache hold.
use meshtastic_ble_proxy.Base.{
  ℕ, ◌≡◌, refl, sym, ◌∙◌, arith, ◌==◌, if◌then◌else◌, List, [], ◌∷◌, Bytes, Bool, true, false, All,
  subst,
}
use meshtastic_ble_proxy.Nanopb.{Nanopb}
use meshtastic_ble_proxy.Proto.{FromradioInfo}
use meshtastic_ble_proxy.ConfigCache.{Cache}
use meshtastic_ble_proxy.ConfigCache.Layout.{IsValid, cache_add_frame-IsValid}
use meshtastic_ble_proxy.ConfigCache.Frames.{Frame, frames, add, frames-add_frame}
use meshtastic_ble_proxy.Upstream.{Upstream, fetching, consume, upstream_on_fromradio}
use meshtastic_ble_proxy.Upstream.Session.{Incoming, as_frame, cached, feed, IsOpen}

module _ {S : Type 0} (serve : ℕ → ℕ → S → S) (pb : Nanopb) where
  -- How the session stands while it fetches: what does not change, and what the cache holds.
  pub record IsFetching (u : Upstream) (s : S) (fs : List Frame) (v : Upstream) (c : Cache) (t : S)
      : Type 0 where
    pub state : v.state ≡ fetching
    pub nonce : v.nonce ≡ u.nonce
    pub pending : v.pending ≡ u.pending
    pub serve_cb : v.serve_cb ≡ u.serve_cb
    pub phones : t ≡ s
    pub valid : IsValid pb.tags c
    pub held : frames c ≡ fs

  -- A live packet is left to the router in every state.
  pub on_fromradio-packet :
      (u : Upstream) (cache : Cache) (s : S) (payload : Bytes) (info : FromradioInfo)
      → info.which_variant ≡ pb.tags.packet_tag
      → upstream_on_fromradio serve pb u cache s payload info ≡ (false, u, cache, s)
  unfolding upstream_on_fromradio
  on_fromradio-packet u cache s payload info h = ground arith

  -- A frame before the end is a live packet and left to the router, or it is consumed.
  pub on_fromradio-open :
      (u : Upstream) (cache : Cache) (s : S) (f : Incoming)
      → u.state ≡ fetching
      → IsOpen serve pb u.nonce f
      → upstream_on_fromradio serve pb u cache s f.payload f.info ≡ (
          if f.info.which_variant == pb.tags.packet_tag then (false, u, cache, s) else (
            true,
            (consume pb.tags u cache f.payload f.info.which_variant).0,
            (consume pb.tags u cache f.payload f.info.which_variant).1,
            s,
          ))
  unfolding upstream_on_fromradio
  on_fromradio-open u cache s f st h = ground arith

  abbrev Stands : Upstream → S → List Frame → Bool × Upstream × Cache × S → Type 0
  Stands u s fs (consumed, v, c, t) = IsFetching u s fs v c t

  step-Stands :
      (u : Upstream) (cache : Cache) (s : S) (f : Incoming) (live_packet : Bool)
      → u.state ≡ fetching
      → IsValid pb.tags cache
      → Stands u s (if live_packet then frames cache else add (frames cache) (as_frame f)) (
          if live_packet then (false, u, cache, s) else (
            true,
            (consume pb.tags u cache f.payload f.info.which_variant).0,
            (consume pb.tags u cache f.payload f.info.which_variant).1,
            s,
          ))
  unfolding consume
  step-Stands u cache s f true st v = record {
    state = st;
    nonce = refl;
    pending = refl;
    serve_cb = refl;
    phones = refl;
    valid = v;
    held = refl;
  }
  step-Stands u cache s f false st v = record {
    state = st;
    nonce = refl;
    pending = refl;
    serve_cb = refl;
    phones = refl;
    valid = cache_add_frame-IsValid pb.tags cache f.payload f.info.which_variant v;
    held = (frames-add_frame pb.tags cache v f.payload f.info.which_variant).1;
  }

  IsFetching-trans :
      (u : Upstream) (s : S) (fs : List Frame) (v : Upstream) (c : Cache) (t : S)
      → (gs : List Frame) (w : Upstream) (d : Cache) (r : S) → IsFetching u s fs v c t
      → IsFetching v t gs w d r
      → IsFetching u s gs w d r
  IsFetching-trans u s fs v c t gs w d r a b = record {
    state = b.state;
    nonce = b.nonce ∙ a.nonce;
    pending = b.pending ∙ a.pending;
    serve_cb = b.serve_cb ∙ a.serve_cb;
    phones = b.phones ∙ a.phones;
    valid = b.valid;
    held = b.held;
  }

  -- A burst of any length and content, up to its end, leaves the session fetching and the phones
  -- that wait as they were, and leaves a well-formed cache which holds the frames that were added,
  -- in their order, live packets left out.
  pub feed-IsFetching :
      (u : Upstream) (cache : Cache) (s : S) (burst : List Incoming)
      → u.state ≡ fetching
      → IsValid pb.tags cache
      → All (IsOpen serve pb u.nonce) burst
      → let (u', cache', s') = feed serve pb u cache s burst in
        IsFetching u s (cached pb.tags (frames cache) burst) u' cache' s'
  unfolding feed cached
  feed-IsFetching u cache s [] st v h = record {
    state = st;
    nonce = refl;
    pending = refl;
    serve_cb = refl;
    phones = refl;
    valid = v;
    held = refl;
  }
  feed-IsFetching u cache s (f ∷ burst) st v h =
      let step : Stands u s (cached pb.tags (frames cache) (f ∷ []))
          (upstream_on_fromradio serve pb u cache s f.payload f.info) =
        subst (Stands u s (cached pb.tags (frames cache) (f ∷ [])))
          (sym (on_fromradio-open u cache s f st h.0)) (step-Stands u cache s f _ st v) in
      let (consumed, u', cache', s') = upstream_on_fromradio serve pb u cache s f.payload f.info in
      let rest =
        feed-IsFetching u' cache' s' burst step.state step.valid
          (subst (λ n. All (IsOpen serve pb n) burst) (sym step.nonce) h.1) in
      let (v, d, t) = feed serve pb u' cache' s' burst in
      IsFetching-trans u s _ u' cache' s' _ v d t step
        (subst (λ fs. IsFetching u' s' (cached pb.tags fs burst) v d t) step.held rest)
