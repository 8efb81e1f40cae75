-- ===== src/Upstream/Session.antt =====
-- The fetch of src/upstream_session.c: how a burst fills the cache and how its end serves the phones
-- that wait.
pub mod Fetching
pub mod End
use meshtastic_ble_proxy.Base.{
  ℕ, ◌≡◌, ◌≢◌, refl, sym, ◌∙◌, arith, ◌==◌, if◌then◌else◌, List, [], ◌∷◌, ◌++◌, Bytes, Bool, true,
  false, All, length, ◌⊎◌, some, subst, ap₂,
}
use meshtastic_ble_proxy.Nanopb.{Nanopb, Tags}
use meshtastic_ble_proxy.Proto.{FromradioInfo}
use meshtastic_ble_proxy.ConfigCache.{Cache, cache_mark_ready}
use meshtastic_ble_proxy.ConfigCache.Layout.{IsValid, cache_add_frame-IsValid, mark_ready-IsValid}
use meshtastic_ble_proxy.ConfigCache.Frames.{Frame, frames, add, frames-add_frame}
use meshtastic_ble_proxy.Upstream.{
  Upstream, fetching, cache_ready, live, consume, finish, upstream_on_fromradio,
  decode_config_complete_nonce, serve_each, serve_one_pending, serve_pending_phones,
}
use meshtastic_ble_proxy.Upstream.Phase0.{phase0_account}

-- A decoded frame from the node.
pub record Incoming : Type 0 where
  pub payload : Bytes
  pub info : FromradioInfo

abbrev pub as_frame : Incoming → Frame
as_frame f = record { bytes = f.payload; variant = f.info.which_variant }

-- The frames that a cache with the frames `fs` holds after the burst: every one but live packets is
-- added.
unfoldable pub cached : Tags → List Frame → List Incoming → List Frame
cached tags fs [] = fs
cached tags fs (f ∷ burst) =
    cached tags (if f.info.which_variant == tags.packet_tag then fs else add fs (as_frame f)) burst

module _ {S : Type 0} (serve : ℕ → ℕ → S → S) (pb : Nanopb) where
  -- The session is given the frames one after the other.
  unfoldable pub feed : Upstream → Cache → S → List Incoming → Upstream × Cache × S
  feed u cache s [] = (u, cache, s)
  feed u cache s (f ∷ burst) =
      let (consumed, u', cache', s') = upstream_on_fromradio serve pb u cache s f.payload f.info in
      feed u' cache' s' burst

  -- Each phone is told to replay by its stored nonce.
  unfoldable pub serve_all : List ℕ → S → S
  serve_all [] s = s
  serve_all (conn ∷ conns) s = serve_all conns (serve conn 0 s)

  -- The burst's end: a closing frame that carries the session's nonce.
  abbrev pub IsEnd : ℕ → Incoming → Type 0
  IsEnd nonce f =
      (f.info.which_variant ≢ pb.tags.packet_tag)
      × (f.info.which_variant ≡ pb.tags.config_complete_id_tag)
      × (decode_config_complete_nonce pb f.payload ≡ some nonce)

  -- A frame that does not end the burst, a live packet or another phone's closing frame too.
  abbrev pub IsOpen : ℕ → Incoming → Type 0
  IsOpen nonce f =
      (f.info.which_variant ≢ pb.tags.config_complete_id_tag)
      ⊎ (decode_config_complete_nonce pb f.payload ≢ some nonce)
