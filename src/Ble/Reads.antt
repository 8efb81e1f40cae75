-- ===== src/Ble/Reads.antt =====
-- The read handlers of src/ble_gatt.c. `bt_gatt_attr_read` is the stack's: `attr_read value len
-- offset` is the part of a value that a read is given, or its ATT error.
pub mod Replay
pub mod Drain
pub mod Bounds
pub mod Long
pub mod Stream
use meshtastic_ble_proxy.Base.{
  ℕ, zero, suc, ◌+◌, ◌-◌, ◌*◌, ◌/◌, ◌%◌, ◌^◌, Bool, true, false, Option, none, some, List, [], ◌∷◌,
  ltb, ◌==◌, if◌then◌else◌, length, get_elem?, get_or, modify, take, Bytes,
}
use meshtastic_ble_proxy.Nanopb.{Tags}
use meshtastic_ble_proxy.ConfigCache.{
  Cache, cache_frame_count, cache_frame_at, cache_frame_bytes, cache_frame_in_segment,
}
use meshtastic_ble_proxy.Ble.State.{
  Conn, PhoneState, replaying, active, ProxyConn, Ble, find_slot, fromradio_queue_depth,
}

-- A read's answer: bytes, or an ATT error; `unlikely` is BT_ATT_ERR_UNLIKELY.
pub data ReadResult : Type 0 where
  bytes : Bytes → ReadResult
  refused : ReadResult
  unlikely : ReadResult

-- The while loop that skips frames out of the phone's segment, over the frames left.
unfoldable pub skip_frames : Tags → Cache → ℕ → ℕ → ℕ → ℕ
skip_frames tags cache nonce cursor zero = cursor
skip_frames tags cache nonce cursor (suc left) =
    let next = skip_frames tags cache nonce (cursor + 1) left in
    if cache_frame_in_segment tags cache cursor nonce then cursor else next

-- The frame at the cursor, as it is copied to the staging buffer.
frame_bytes : Cache → ℕ → Bytes
frame_bytes cache cursor = elim (cache_frame_at cache cursor) [
  | none ↦ []
  | some ref ↦ take ref.len (cache_frame_bytes cache ref)
]

-- Behind the skipped frames: a cached frame, then the closing frame, then the end.
replay_at : Cache → ProxyConn → ℕ → ProxyConn
unfolding frame_bytes
replay_at cache pc cursor =
    let n = cache_frame_count cache in
    if ltb cursor n
    then record pc { staged = frame_bytes cache cursor; replay_cursor = (cursor + 1) % 2 ^ 16 }
    else if cursor == n
    then record pc { staged = take pc.cc_len pc.cc_frame; replay_cursor = (cursor + 1) % 2 ^ 16 }
    else record pc { state = active; staged = []; replay_cursor = cursor }

pop_packet : ProxyConn → ProxyConn
pop_packet pc =
    if ltb 0 pc.count
    then record pc {
      staged = get_or pc.queue pc.head [];
      head = (pc.head + 1) % fromradio_queue_depth;
      count = pc.count - 1;
    }
    else record pc { staged = [] }

-- The staging step of a fresh read.
stage_in : PhoneState → Tags → Cache → ProxyConn → ProxyConn
stage_in replaying tags cache pc =
    replay_at cache pc (
      skip_frames tags cache pc.nonce pc.replay_cursor (cache_frame_count cache - pc.replay_cursor))
stage_in _ tags cache pc = pop_packet pc

unfoldable pub stage : Tags → Cache → ProxyConn → ProxyConn
unfolding stage_in replay_at pop_packet
stage tags cache pc = stage_in pc.state tags cache pc

module _ (attr_read : Bytes → ℕ → ℕ → Option Bytes) where
  abbrev answer : Option Bytes → ReadResult
  answer none = refused
  answer (some bs) = bytes bs

  -- The answer to a read of the staging buffer; an empty one is an empty answer.
  abbrev pub serve_staged : Bytes → ℕ → ℕ → ReadResult
  serve_staged staged len offset =
      if ltb 0 (length staged) then answer (attr_read staged len offset) else bytes []

  unfoldable pub fromradio_read : Tags → Cache → Ble → Conn → ℕ → ℕ → ReadResult × Ble
  fromradio_read tags cache b conn len offset = elim (find_slot b.conns conn) [
    | none ↦ (unlikely, b)
    | some i ↦ elim (get_elem? b.conns i) [
      | none ↦ (unlikely, b)
      | some pc ↦
          let pc' = if offset == 0 then stage tags cache pc else pc in
          (serve_staged pc'.staged len offset, record b { conns = modify b.conns i (λ _. pc') })
    ]
  ]

  -- The counter as its four little-endian bytes.
  abbrev pub le32 : ℕ → Bytes
  le32 n = n % 256 ∷ (n / 2 ^ 8) % 256 ∷ (n / 2 ^ 16) % 256 ∷ (n / 2 ^ 24) % 256 ∷ []

  pub fromnum_read : Ble → Conn → ℕ → ℕ → ReadResult × Ble
  fromnum_read b conn len offset = elim (find_slot b.conns conn) [
    | none ↦ (unlikely, b)
    | some i ↦ elim (get_elem? b.conns i) [
      | none ↦ (unlikely, b)
      | some pc ↦ (
        answer (attr_read (le32 pc.fromnum) len offset),
        record b { led_fromradio_active = true },
      )
    ]
  ]

  pub logradio_read : ReadResult
  logradio_read = bytes []
