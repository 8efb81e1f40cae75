-- ===== src/Ble/Burst/Parked.antt =====
-- The callback of the session over src/ble_gatt.c: every waiting phone's replay is armed by the nonce
-- that its slot keeps.
use meshtastic_ble_proxy.Base.{
  ℕ, ◌≡◌, ◌≢◌, refl, ◌∙◌, some, List, [], ◌∷◌, arith, true, false, ◌==◌, ==_refl, modify-at, Bytes,
  Option-cases, Bool-cases, inl, inr, ◌⊎◌, Errno,
}
use meshtastic_ble_proxy.Nanopb.{Nanopb}
use meshtastic_ble_proxy.Proto.{proto_encode_config_complete, EncodeResult, encoded, encode_failed}
use meshtastic_ble_proxy.Ble.State.{Conn, ProxyConn, Ble, find_slot, cc_frame_size}
use meshtastic_ble_proxy.Ble.Connections.Slots.{slot_of, find_slot-some, slot_of-modify_ne}
use meshtastic_ble_proxy.Ble.Burst.{arm, chosen_nonce, replay_slot, ble_gatt_replay_cached_burst}
use meshtastic_ble_proxy.Ble.Burst.Arming.{armed, replay-slot}
use meshtastic_ble_proxy.Upstream.{is_pending}
use meshtastic_ble_proxy.Upstream.Waiting.{IsOnce}
use meshtastic_ble_proxy.Upstream.Session.{serve_all}

module _ (pb : Nanopb) where
  -- The callback, as the session sees it.
  abbrev pub replay : Conn → ℕ → Ble → Ble
  replay conn nonce b = ble_gatt_replay_cached_burst pb b conn nonce

  pub encode_cases :
      (nonce : ℕ)
      → ((e : Errno) × (proto_encode_config_complete pb nonce cc_frame_size ≡ encode_failed e))
        ⊎ ((bs : Bytes) × (proto_encode_config_complete pb nonce cc_frame_size ≡ encoded bs))
  encode_cases nonce = go (proto_encode_config_complete pb nonce cc_frame_size) refl
    where
      go :
          (r : EncodeResult)
          → proto_encode_config_complete pb nonce cc_frame_size ≡ r
          → ((e : Errno) × (proto_encode_config_complete pb nonce cc_frame_size ≡ encode_failed e))
            ⊎ ((bs : Bytes) × (proto_encode_config_complete pb nonce cc_frame_size ≡ encoded bs))
      go (encode_failed e) h = inl (e, h)
      go (encoded bs) h = inr (bs, h)

  -- A replay for one connection leaves the slots of others.
  replay-other :
      (b : Ble) (conn other : Conn) (nonce : ℕ)
      → other ≢ conn
      → slot_of (replay conn nonce b).conns other ≡ slot_of b.conns other
  unfolding ble_gatt_replay_cached_burst arm
  replay-other b conn other nonce ne = elim (Option-cases (find_slot b.conns conn)) [
    | inl e ↦ rw (ble_gatt_replay_cached_burst, e)
    | inr (i, e) ↦
        let (pc, at, holds) = find_slot-some b.conns conn i e in
        elim (encode_cases (chosen_nonce nonce pc)) [
          | inl (e', fails) ↦
              rw (ble_gatt_replay_cached_burst, e, at, replay_slot, fails)
                (rw (modify-at b.conns i named pc at)
                  (slot_of-modify_ne b.conns conn i named e (λ q. refl) other ne))
          | inr (bs, works) ↦
              rw (ble_gatt_replay_cached_burst, e, at, replay_slot, works)
                (rw (modify-at b.conns i (armed bs nonce) pc at)
                  (slot_of-modify_ne b.conns conn i (armed bs nonce) e (λ q. refl) other ne))
        ]
  ]
    where
      named : ProxyConn → ProxyConn
      named q = record q { nonce = chosen_nonce nonce q }

  -- Phones that do not wait keep their slots.
  pub serve_all-other :
      (conns : List Conn) (b : Ble) (conn : Conn)
      → is_pending conn conns ≡ false
      → slot_of (serve_all replay pb conns b).conns conn ≡ slot_of b.conns conn
  unfolding serve_all is_pending
  serve_all-other [] b conn h = refl
  serve_all-other (c ∷ cs) b conn h =
      serve_all-other cs (replay c 0 b) conn (ground arith)
      ∙ replay-other b c conn 0 (λ e. ground (arith, ==_refl conn))

  -- Serving all that wait arms the replay of each by the nonce in its slot, whatever the others'
  -- slots hold.
  pub serve_all-armed :
      (conns : List Conn) (b : Ble) (conn : Conn) (pc : ProxyConn) (bs : Bytes)
      → IsOnce conns
      → is_pending conn conns ≡ true
      → slot_of b.conns conn ≡ some pc
      → proto_encode_config_complete pb pc.nonce cc_frame_size ≡ encoded bs
      → slot_of (serve_all replay pb conns b).conns conn ≡ some (armed bs 0 pc)
  unfolding serve_all is_pending
  serve_all-armed [] b conn pc bs once h at enc = absurd (cc)
  serve_all-armed (c ∷ cs) b conn pc bs once h at enc = elim (Bool-cases (c == conn)) [
    | inl here ↦
        let e : c ≡ conn = ground arith in
        serve_all-other cs (replay c 0 b) conn (ground arith)
        ∙ rw e (replay-slot pb b conn 0 pc bs at enc)
    | inr later ↦
        serve_all-armed cs (replay c 0 b) conn pc bs once.1 (ground arith)
          (replay-other b c conn 0 (λ e. ground (arith, ==_refl conn)) ∙ at) enc
  ]
