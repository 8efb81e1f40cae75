-- ===== src/Upstream/Stats.antt =====
-- The counters of the config burst in src/upstream_session.c.
use meshtastic_ble_proxy.Base.{
  List, [], ◌∷◌, inl, inr, Bytes, length, ℕ, ◌+◌, ◌%◌, ◌^◌, ◌≡◌, arith, refl,
}
use meshtastic_ble_proxy.Nanopb.{Tags, Nanopb}
use meshtastic_ble_proxy.Proto.{FromradioInfo}
use meshtastic_ble_proxy.ConfigCache.{Cache}
use meshtastic_ble_proxy.Upstream.{
  Upstream, upstream_on_fromradio, consume, finish, serve_pending_phones,
}
use meshtastic_ble_proxy.Upstream.Outcomes.{on_fromradio_cases}
use meshtastic_ble_proxy.Upstream.Session.{Incoming, feed}
use meshtastic_ble_proxy.Upstream.Phase0.{Phase0Stats, phase0_account, phase0_reset}

-- The bytes by kind, added up.
abbrev pub bytes_by_kind : Phase0Stats → ℕ
bytes_by_kind s =
    s.my_info_bytes + s.deviceui_config_bytes + s.node_info_bytes + s.metadata_bytes
    + s.channel_bytes + s.config_bytes + s.module_config_bytes + s.file_info_bytes
    + s.queue_status_bytes + s.other_bytes

-- The total is the sum over the kinds, as 32-bit numbers.
abbrev pub IsBalanced : Phase0Stats → Type 0
IsBalanced s = s.total_bytes ≡ bytes_by_kind s % 2 ^ 32

phase0_reset-IsBalanced : IsBalanced phase0_reset
unfolding phase0_reset
phase0_reset-IsBalanced = refl

-- Accounting a frame of any variant and length keeps the total equal to the sum over the kinds.
phase0_account-IsBalanced :
    (tags : Tags) (s : Phase0Stats) (variant len : ℕ)
    → IsBalanced s
    → IsBalanced (phase0_account tags s variant len)
unfolding phase0_account
phase0_account-IsBalanced tags s variant len h = ground arith

module _ {S : Type 0} (serve : ℕ → ℕ → S → S) (pb : Nanopb) where
  on_fromradio-IsBalanced :
      (u : Upstream) (cache : Cache) (s : S) (payload : Bytes) (info : FromradioInfo)
      → IsBalanced u.stats
      → IsBalanced (upstream_on_fromradio serve pb u cache s payload info).1.stats
  unfolding consume finish serve_pending_phones
  on_fromradio-IsBalanced u cache s payload info h =
      let accounted =
        phase0_account-IsBalanced pb.tags u.stats info.which_variant (length payload) h in
      elim (on_fromradio_cases serve pb u cache s payload info) [
        | inl e ↦ rw e h
        | inr (inl e) ↦ rw e accounted
        | inr (inr (nonce, e)) ↦ rw e accounted
      ]

  -- Whatever frames the session is given, in whatever state, its byte counters stay balanced: the
  -- total is the sum over the kinds, as 32-bit numbers, if it was before.
  feed-IsBalanced :
      (u : Upstream) (cache : Cache) (s : S) (burst : List Incoming)
      → IsBalanced u.stats
      → IsBalanced (feed serve pb u cache s burst).0.stats
  unfolding feed
  feed-IsBalanced u cache s [] h = h
  feed-IsBalanced u cache s (f ∷ burst) h =
      let (consumed, u', cache', s') = upstream_on_fromradio serve pb u cache s f.payload f.info in
      feed-IsBalanced u' cache' s' burst (on_fromradio-IsBalanced u cache s f.payload f.info h)
