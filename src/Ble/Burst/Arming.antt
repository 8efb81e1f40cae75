-- ===== src/Ble/Burst/Arming.antt =====
-- The replay that src/ble_gatt.c arms: what the phone's reads give from there on.
use mathlib.Core.Option
use meshtastic_ble_proxy.Base.{
  ℕ, ◌+◌, ◌%◌, ◌^◌, ◌≤◌, ◌≡◌, ◌≢◌, refl, ap, ◌∙◌, some, [], ◌∷◌, ◌++◌, arith, length, take, map,
  Bytes, copy_at, slice-copy_at_self, get_elem?, modify, Option-cases, inl, inr, subst, modify-at,
}
use meshtastic_ble_proxy.Nanopb.{Nanopb, HasDistinctTags}
use meshtastic_ble_proxy.Proto.{proto_encode_config_complete, encoded}
use meshtastic_ble_proxy.ConfigCache.{Cache}
use meshtastic_ble_proxy.ConfigCache.Layout.{IsValid}
use meshtastic_ble_proxy.ConfigCache.Frames.{frames}
use meshtastic_ble_proxy.ConfigCache.Segments.{segment}
use meshtastic_ble_proxy.Ble.State.{
  Conn, ProxyConn, Ble, find_slot, cc_frame_size, emit, notify_fromnum,
}
use meshtastic_ble_proxy.Ble.Connections.Slots.{slot_of, slot_of-modify_self, slot_of-modify_ne}
use meshtastic_ble_proxy.Ble.Reads.Replay.{fresh_reads, replay-serves_segment}
use meshtastic_ble_proxy.Ble.Burst.{arm, chosen_nonce, replay_slot, ble_gatt_replay_cached_burst}

-- A phone's slot with the nonce stored and the replay armed.
abbrev pub armed : Bytes → ℕ → ProxyConn → ProxyConn
armed cc nonce pc = arm cc (record pc { nonce = chosen_nonce nonce pc })

module _ (pb : Nanopb) (b : Ble) (conn : Conn) (nonce : ℕ) (pc : ProxyConn) (cc_bytes : Bytes)
    (at : slot_of b.conns conn ≡ some pc)
    (enc : proto_encode_config_complete pb (chosen_nonce nonce pc) cc_frame_size
      ≡ encoded cc_bytes) where
  -- The call changes one slot and notifies its phone.
  replay_armed :
      (i : ℕ) × (find_slot b.conns conn ≡ some i)
      × (ble_gatt_replay_cached_burst pb b conn nonce
          ≡ emit
              (notify_fromnum conn ((pc.fromnum + 1) % 2 ^ 32))
              (record b { conns = modify b.conns i (armed cc_bytes nonce) }))
  unfolding ble_gatt_replay_cached_burst
  replay_armed = elim (Option-cases (find_slot b.conns conn)) [
    | inl e ↦ absurd (ground arith)
    | inr (i, e) ↦
        let here : get_elem? b.conns i ≡ some pc = ground arith in
        (
          i,
          e,
          rw (ble_gatt_replay_cached_burst, e, here, replay_slot, enc)
              (ap
                (λ cs.
                  emit (notify_fromnum conn ((pc.fromnum + 1) % 2 ^ 32)) (record b { conns = cs }))
                (modify-at b.conns i (armed cc_bytes nonce) pc here)),
        )
  ]

  -- The phone's slot after the call.
  pub replay-slot :
      slot_of (ble_gatt_replay_cached_burst pb b conn nonce).conns conn
      ≡ some (armed cc_bytes nonce pc)
  unfolding arm
  replay-slot =
      let (i, found, e) = replay_armed in
      rw e (
        slot_of-modify_self b.conns conn i (armed cc_bytes nonce) found (λ q. refl)
        ∙ ap (Option.map (armed cc_bytes nonce)) at)

  -- Any other phone's.
  pub replay-slot_ne :
      (other : Conn)
      → other ≢ conn
      → slot_of (ble_gatt_replay_cached_burst pb b conn nonce).conns other ≡ slot_of b.conns other
  unfolding arm
  replay-slot_ne other ne =
      let (i, found, e) = replay_armed in
      rw e (slot_of-modify_ne b.conns conn i (armed cc_bytes nonce) found (λ q. refl) other ne)

-- A phone whose replay is armed for a nonce, reading on, is given the cached frames of that nonce's
-- segment in the order of the burst, one to a read, then the closing frame that carries the nonce,
-- then nothing.
pub armed-serves_segment :
    (pb : Nanopb) (cache : Cache) (nonce n : ℕ) (pc : ProxyConn) (cc_bytes : Bytes)
    → HasDistinctTags pb.tags
    → IsValid pb.tags cache
    → chosen_nonce nonce pc ≡ n
    → length pc.cc_frame ≡ cc_frame_size
    → length cc_bytes ≤ cc_frame_size
    → let seg = segment pb.tags n (frames cache) in
      (fresh_reads pb.tags cache (length seg + 2) (armed cc_bytes nonce pc)).0
      ≡ map (λ f. f.bytes) seg ++ cc_bytes ∷ [] ∷ []
unfolding arm
armed-serves_segment pb cache nonce n pc cc_bytes d v same size le =
    let q = armed cc_bytes nonce pc in
    let gives : ℕ → Type 0 = λ m.
      (fresh_reads pb.tags cache (length (segment pb.tags m (frames cache)) + 2) q).0
      ≡ map (λ f. f.bytes) (segment pb.tags m (frames cache)) ++ cc_bytes ∷ [] ∷ [] in
    subst gives same (
      ap (λ r. r.0) (replay-serves_segment pb.tags cache q d v refl refl)
      ∙ ap (λ c. map (λ f. f.bytes) (segment pb.tags q.nonce (frames cache)) ++ c ∷ [] ∷ [])
          closing)
  where
    exact : length cc_bytes % 2 ^ 8 ≡ length cc_bytes
    exact = omega arith

    closing : take (length cc_bytes % 2 ^ 8) (copy_at pc.cc_frame 0 cc_bytes) ≡ cc_bytes
    closing = rw exact (slice-copy_at_self pc.cc_frame 0 cc_bytes (omega arith))
