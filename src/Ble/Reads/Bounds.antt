-- ===== src/Ble/Reads/Bounds.antt =====
-- What the reads of src/ble_gatt.c stage fits the staging buffer.
use meshtastic_ble_proxy.Base.{
  ℕ, ◌+◌, ◌-◌, ◌%◌, ◌^◌, ◌<◌, ◌≡◌, some, [], arith, ◌==◌, ltb, take, get_elem?, All, All-get_elem?,
  All-get_or, Option-cases, Bool-cases, inl, inr, Bytes, length-take,
}
use meshtastic_ble_proxy.Nanopb.{Tags}
use meshtastic_ble_proxy.ConfigCache.{Cache, cache_frame_at, cache_frame_bytes}
use meshtastic_ble_proxy.ConfigCache.Layout.{IsValid}
use meshtastic_ble_proxy.ConfigCache.Frames.{Frame, frames, frame_at-read}
use meshtastic_ble_proxy.Ble.State.{
  PhoneState, connected, await_want_config, pending, replaying, active, ProxyConn,
}
use meshtastic_ble_proxy.Ble.Queue.Fifo.{IsPacket}
use meshtastic_ble_proxy.Ble.Table.{IsSound}
use meshtastic_ble_proxy.Ble.Reads.{
  stage, stage_in, frame_bytes, replay_at, pop_packet, skip_frames,
}

-- The cache's frames fit the staging buffer.
abbrev pub IsServable : Tags → Cache → Type 0
IsServable tags cache = IsValid tags cache × All (λ f. IsPacket f.bytes) (frames cache)

module _ (tags : Tags) (cache : Cache) (ok : IsServable tags cache) where
  frame_bytes-IsPacket : (i : ℕ) → IsPacket (frame_bytes cache i)
  unfolding frame_bytes
  frame_bytes-IsPacket i = elim (Option-cases (cache_frame_at cache i)) [
    | inl e ↦ ground arith
    | inr (r, e) ↦
        let f : Frame = record {
          bytes = take r.len (cache_frame_bytes cache r);
          variant = r.variant;
        } in
        let at : get_elem? (frames cache) i ≡ some f =
          ground (arith, frame_at-read tags cache ok.0 i) in
        let small : IsPacket f.bytes =
          All-get_elem? (λ g. IsPacket g.bytes) (frames cache) i f ok.1 at in
        rw (frame_bytes, e) small
  ]

  module _ (pc : ProxyConn) (w : IsSound pc) where
    restaged :
        (st : PhoneState) (staged : Bytes) (cursor : ℕ)
        → IsPacket staged
        → IsSound (record pc { staged = staged; replay_cursor = cursor; state = st })
    restaged st staged cursor small = record {
      buffers = record {
        queue_size = w.buffers.queue_size;
        head_max = w.buffers.head_max;
        count_max = w.buffers.count_max;
        tail_at = w.buffers.tail_at;
        packets = w.buffers.packets;
        staged_max = small;
      };
      closing = w.closing;
      identifier = w.identifier;
    }

    replay_at-IsSound : (cursor : ℕ) → IsSound (replay_at cache pc cursor)
    unfolding replay_at
    replay_at-IsSound cursor = elim (Bool-cases (ltb cursor cache.count)) [
      | inl e ↦
          rw (e, replay_at)
            (restaged pc.state (frame_bytes cache cursor) ((cursor + 1) % 2 ^ 16)
              (frame_bytes-IsPacket cursor))
      | inr e ↦ elim (Bool-cases (cursor == cache.count)) [
        | inl e' ↦
            rw (e, e')
              (restaged pc.state (take pc.cc_len pc.cc_frame) ((cursor + 1) % 2 ^ 16)
                (omega (arith, length-take pc.cc_len pc.cc_frame, w.closing)))
        | inr e' ↦ rw (e, e') (restaged active [] cursor (omega arith))
      ]
    ]

    pop_packet-IsSound : IsSound (pop_packet pc)
    unfolding pop_packet
    pop_packet-IsSound = elim (Bool-cases (ltb 0 pc.count)) [
      | inl e ↦
          let some_wait : 0 < pc.count = ground arith in
          rw e (record {
            buffers = record {
              queue_size = w.buffers.queue_size;
              head_max = omega arith;
              count_max = omega (arith, w.buffers.count_max);
              tail_at = omega (arith, w.buffers.tail_at, w.buffers.head_max, some_wait);
              packets = w.buffers.packets;
              staged_max = All-get_or IsPacket pc.queue pc.head [] w.buffers.packets (omega arith);
            };
            closing = w.closing;
            identifier = w.identifier;
          })
      | inr e ↦ rw e (restaged pc.state [] pc.replay_cursor (omega arith))
    ]

    stage_in-IsSound : (st : PhoneState) → IsSound (stage_in st tags cache pc)
    unfolding stage_in
    stage_in-IsSound connected = pop_packet-IsSound
    stage_in-IsSound await_want_config = pop_packet-IsSound
    stage_in-IsSound pending = pop_packet-IsSound
    stage_in-IsSound replaying =
        replay_at-IsSound
          (skip_frames tags cache pc.nonce pc.replay_cursor (cache.count - pc.replay_cursor))
    stage_in-IsSound active = pop_packet-IsSound

    -- A fresh read keeps a slot's queue, staging buffer and closing frame within their buffers.
    pub stage-IsSound : IsSound (stage tags cache pc)
    unfolding stage
    stage-IsSound = stage_in-IsSound pc.state

-- A read leaves the slot's connection.
pub stage-keeps :
    (tags : Tags) (cache : Cache) (pc : ProxyConn) → (stage tags cache pc).conn ≡ pc.conn
unfolding stage
stage-keeps tags cache pc = ground arith
