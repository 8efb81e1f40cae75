-- ===== src/Uart/Receive.antt =====
-- `rx_process_byte` and `rx_work_handler` of src/uart_meshtastic.c: the receive buffer is never
-- overrun, and framed payloads come out as they went in, also behind line noise.
use meshtastic_ble_proxy.Base.{
  ℕ, ◌+◌, ◌/◌, ◌%◌, ◌^◌, ◌≤◌, ◌<◌, ◌≡◌, ◌≢◌, refl, ap, ◌∙◌, Option, none, some, List, [], ◌∷◌, ◌++◌,
  arith, length, set, take, map, Bytes, append_assoc, length-append, length-take, bit_or_byte,
  length-set, take-suc-set, All,
}
use meshtastic_ble_proxy.Uart.{
  RxSm, RxState, wait_magic1, wait_magic2, wait_len_hi, wait_len_lo, wait_payload, rx_process_byte,
  rx_work_handler, hand_on, frame_of, meshtastic_max_payload, meshtastic_magic1, rx_dispatch,
}

-- In RX_WAIT_PAYLOAD the next index to write lies below the expected length and in the buffer.
abbrev InBounds : RxState → ℕ → ℕ → Type 0
InBounds wait_payload received expected =
    (received < expected) × (expected ≤ meshtastic_max_payload)
InBounds wait_magic1 received expected = Unit
InBounds wait_magic2 received expected = Unit
InBounds wait_len_hi received expected = Unit
InBounds wait_len_lo received expected = Unit

pub record IsSafe (sm : RxSm) : Type 0 where
  pub buffer : length sm.payload ≡ meshtastic_max_payload
  pub in_bounds : InBounds sm.state sm.received_len sm.expected_len

-- A frame of the lengths that the protocol allows.
abbrev pub IsFrame : Bytes → Type 0
IsFrame f = (1 ≤ length f) × (length f ≤ meshtastic_max_payload)

abbrev IsFrame? : Option Bytes → Type 0
IsFrame? none = Unit
IsFrame? (some f) = IsFrame f

dispatch-IsSafe :
    (s : RxState) (sm : RxSm) (byte : ℕ)
    → length sm.payload ≡ meshtastic_max_payload
    → InBounds s sm.received_len sm.expected_len
    → s ≡ sm.state
    → IsSafe (rx_dispatch s sm byte).0 × IsFrame? (rx_dispatch s sm byte).1
unfolding rx_dispatch
dispatch-IsSafe wait_magic1 sm byte b h e = ground arith
dispatch-IsSafe wait_magic2 sm byte b h e = ground arith
dispatch-IsSafe wait_len_hi sm byte b h e = ground arith
dispatch-IsSafe wait_len_lo sm byte b h e = ground arith
dispatch-IsSafe wait_payload sm byte b h e = ground (
  arith,
  length-set sm.payload sm.received_len byte,
  length-take ((sm.received_len + 1) % 2 ^ 16) (set sm.payload sm.received_len byte),
)

pub process_byte-IsSafe :
    (sm : RxSm) (byte : ℕ)
    → IsSafe sm
    → IsSafe (rx_process_byte sm byte).0 × IsFrame? (rx_process_byte sm byte).1
unfolding rx_process_byte
process_byte-IsSafe sm byte v = dispatch-IsSafe sm.state sm byte v.buffer v.in_bounds refl

-- Whatever bytes arrive, in whatever state, no byte is written outside the payload buffer, and every
-- frame handed on has 1 to 512 bytes.
pub work_handler-IsSafe :
    (sm : RxSm) (bytes : Bytes)
    → IsSafe sm
    → IsSafe (rx_work_handler sm bytes).0 × All IsFrame (rx_work_handler sm bytes).1
unfolding rx_work_handler
work_handler-IsSafe sm [] v = (v, tt)
work_handler-IsSafe sm (byte ∷ bytes) v =
    let one = process_byte-IsSafe sm byte v in
    let more = work_handler-IsSafe (rx_process_byte sm byte).0 bytes one.0 in
    (
      more.0,
      cons_frame (rx_process_byte sm byte).1 (rx_work_handler (rx_process_byte sm byte).0 bytes).1
          one.1 more.1,
    )
  where
    cons_frame :
        (out : Option Bytes) (fs : List Bytes)
        → IsFrame? out
        → All IsFrame fs
        → All IsFrame (hand_on out fs)
    cons_frame none fs h k = k
    cons_frame (some f) fs h k = (h, k)

hand_on-append :
    (out : Option Bytes) (fs gs : List Bytes) → hand_on out (fs ++ gs) ≡ hand_on out fs ++ gs
hand_on-append none fs gs = refl
hand_on-append (some f) fs gs = refl

-- Bytes that arrive in two batches are handled as in one.
pub work_handler-append :
    (sm : RxSm) (xs ys : Bytes)
    → rx_work_handler sm (xs ++ ys) ≡ (
        let (sm', fs) = rx_work_handler sm xs in
        let (sm'', gs) = rx_work_handler sm' ys in (sm'', fs ++ gs))
unfolding rx_work_handler
work_handler-append sm [] ys = refl
work_handler-append sm (x ∷ xs) ys =
    let (sm', out) = rx_process_byte sm x in
    let (sm'', fs) = rx_work_handler sm' xs in
    let (end, gs) = rx_work_handler sm'' ys in
    ap {B = RxSm × List Bytes} (λ r. (r.0, hand_on out r.1)) (work_handler-append sm' xs ys)
    ∙ ap {B = RxSm × List Bytes} (λ hs. (end, hs)) (hand_on-append out fs gs)

-- Two batches whose runs are known.
batches :
    (sm sm' sm'' : RxSm) (xs ys : Bytes) {fs gs : List Bytes}
    → rx_work_handler sm xs ≡ (sm', fs)
    → rx_work_handler sm' ys ≡ (sm'', gs)
    → rx_work_handler sm (xs ++ ys) ≡ (sm'', fs ++ gs)
batches sm sm' sm'' xs ys e e' = work_handler-append sm xs ys ∙ rw (e, e')

-- Between frames.
pub record IsIdle (sm : RxSm) : Type 0 where
  pub between : sm.state ≡ wait_magic1
  pub buffer : length sm.payload ≡ meshtastic_max_payload

-- Bytes other than the first magic byte are skipped.
skip_noise :
    (sm : RxSm) (noise : Bytes)
    → IsIdle sm
    → All (λ b. b ≢ meshtastic_magic1) noise
    → rx_work_handler sm noise ≡ (sm, [])
unfolding rx_work_handler rx_process_byte
skip_noise sm [] v h = refl
skip_noise sm (b ∷ noise) v h = ground (arith, skip_noise sm noise v h.1)

-- In the middle of a payload: `got` has come, `more` is to come.
record IsReading (sm : RxSm) (got : Bytes) (more : Bytes) : Type 0 where
  in_payload : sm.state ≡ wait_payload
  expects : sm.expected_len ≡ length got + length more
  received : sm.received_len ≡ length got
  stored : take (length got) sm.payload ≡ got
  buffer : length sm.payload ≡ meshtastic_max_payload
  fits : sm.expected_len ≤ meshtastic_max_payload

read_byte-more :
    (sm : RxSm) (got : Bytes) (x y : ℕ) (more : Bytes)
    → IsReading sm got (x ∷ y ∷ more)
    → IsReading (rx_process_byte sm x).0 (got ++ x ∷ []) (y ∷ more)
      × ((rx_process_byte sm x).1 ≡ none)
unfolding rx_process_byte
read_byte-more sm got x y more v = ground (
  arith,
  length-set sm.payload sm.received_len x,
  take-suc-set sm.payload (length got) x,
  length-append got (x ∷ []),
)

read_byte-last :
    (sm : RxSm) (got : Bytes) (x : ℕ)
    → IsReading sm got (x ∷ [])
    → IsIdle (rx_process_byte sm x).0 × ((rx_process_byte sm x).1 ≡ some (got ++ x ∷ []))
unfolding rx_process_byte
read_byte-last sm got x v = ground (
  arith,
  length-set sm.payload sm.received_len x,
  take-suc-set sm.payload (length got) x,
  length-append got (x ∷ []),
)

-- The rest of a payload completes it.
read_payload :
    (sm : RxSm) (got : Bytes) (x : ℕ) (more : Bytes)
    → IsReading sm got (x ∷ more)
    → (sm' : RxSm) × IsIdle sm' × (rx_work_handler sm (x ∷ more) ≡ (sm', (got ++ x ∷ more) ∷ []))
unfolding rx_work_handler
read_payload sm got x [] v =
    let last = read_byte-last sm got x v in ((rx_process_byte sm x).0, last.0, rw (last.1))
read_payload sm got x (y ∷ more) v =
    let step = read_byte-more sm got x y more v in
    let (sm', idle, e) = read_payload (rx_process_byte sm x).0 (got ++ x ∷ []) y more step.0 in
    (
      sm',
      idle,
      rw (step.1) (
          e
          ∙ ap {B = RxSm × List Bytes} (λ p. (sm', p ∷ [])) (append_assoc got (x ∷ []) (y ∷ more))),
    )

-- The four bytes of a header.
read_header :
    (sm : RxSm) (payload : Bytes)
    → IsIdle sm
    → IsFrame payload
    → (sm' : RxSm) × IsReading sm' [] payload
      × (rx_work_handler sm (frame_of payload) ≡ rx_work_handler sm' payload)
unfolding rx_work_handler rx_process_byte frame_of
read_header sm payload v f = (
  record sm { state = wait_payload; expected_len = length payload; received_len = 0 },
  ground arith,
  ground (arith, bit_or_byte (length payload / 256) (length payload % 256)),
)

-- A framed payload comes out whole, and the receiver is ready for the next.
read_frame :
    (sm : RxSm) (payload : Bytes)
    → IsIdle sm
    → IsFrame payload
    → (sm' : RxSm) × IsIdle sm' × (rx_work_handler sm (frame_of payload) ≡ (sm', payload ∷ []))
read_frame sm [] v f = absurd (omega arith)
read_frame sm (x ∷ more) v f =
    let (sm', reading, e) = read_header sm (x ∷ more) v f in
    let (sm'', idle, e') = read_payload sm' [] x more reading in (sm'', idle, e ∙ e')

-- What comes over the line: frames, each behind some noise.
pub record Chunk : Type 0 where
  pub noise : Bytes
  pub payload : Bytes

abbrev pub wire : List Chunk → Bytes
wire [] = []
wire (c ∷ cs) = c.noise ++ (frame_of c.payload ++ wire cs)

abbrev pub IsChunk : Chunk → Type 0
IsChunk c = All (λ b. b ≢ meshtastic_magic1) c.noise × IsFrame c.payload

-- However many frames of 1 to 512 bytes arrive, with whatever bytes other than the first magic byte
-- between them, the payloads are handed on exactly, in order, and nothing else.
pub receive-wire :
    (sm : RxSm) (cs : List Chunk)
    → IsIdle sm
    → All IsChunk cs
    → (sm' : RxSm) × IsIdle sm' × (rx_work_handler sm (wire cs) ≡ (sm', map (λ c. c.payload) cs))
unfolding rx_work_handler
receive-wire sm [] v h = (sm, v, refl)
receive-wire sm (c ∷ cs) v h =
    let (sm', idle, e) = read_frame sm c.payload v h.0.1 in
    let (sm'', idle', e') = receive-wire sm' cs idle h.1 in
    (
      sm'',
      idle',
      batches sm sm sm'' c.noise _ (skip_noise sm c.noise v h.0.0)
          (batches sm sm' sm'' (frame_of c.payload) (wire cs) e e'),
    )
