-- ===== src/Ble/Queue/Fifo.antt =====
-- The circular queue of a slot in src/ble_gatt.c against a first-in first-out list of packets.
use meshtastic_ble_proxy.Base.{
  ℕ, zero, suc, ◌+◌, ◌%◌, ◌^◌, ◌≤◌, ◌<◌, ◌≡◌, refl, ap, ap₂, ◌∙◌, List, [], ◌∷◌, ◌++◌, arith,
  length, get_or, set, Bytes, length-set, All, get_or-set_self, get_or-set_ne, All-set,
}
use meshtastic_ble_proxy.Ble.State.{ProxyConn, fromradio_queue_depth, fromradio_max_pkt_size}
use meshtastic_ble_proxy.Ble.Queue.{push_packet}

-- The `n` entries from an index on, going round.
abbrev window : List Bytes → ℕ → ℕ → List Bytes
window q i zero = []
window q i (suc n) = get_or q i [] ∷ window q ((i + 1) % fromradio_queue_depth) n

-- The packets that wait for a phone, oldest first.
abbrev pub waiting : ProxyConn → List Bytes
waiting pc = window pc.queue pc.head pc.count

abbrev pub IsPacket : Bytes → Type 0
IsPacket p = length p ≤ fromradio_max_pkt_size

-- The invariant of a slot: the indices are in range and agree, and no buffer is overrun.
pub record IsValidSlot (pc : ProxyConn) : Type 0 where
  pub queue_size : length pc.queue ≡ fromradio_queue_depth
  pub head_max : pc.head < fromradio_queue_depth
  pub count_max : pc.count ≤ fromradio_queue_depth
  pub tail_at : pc.tail ≡ (pc.head + pc.count) % fromradio_queue_depth
  pub packets : All IsPacket pc.queue
  pub staged_max : IsPacket pc.staged

length-window : (q : List Bytes) (i n : ℕ) → length (window q i n) ≡ n
length-window q i zero = refl
length-window q i (suc n) = ap suc (length-window q ((i + 1) % 8) n)

pub length-waiting : (pc : ProxyConn) → length (waiting pc) ≡ pc.count
length-waiting pc = length-window pc.queue pc.head pc.count

-- A write just behind a window that does not fill the ring makes it longer by one.
window-set :
    (q : List Bytes) (x : Bytes) (i n t : ℕ)
    → length q ≡ 8
    → i < 8
    → n < 8
    → t ≡ (i + n) % 8
    → window (set q t x) i (suc n) ≡ window q i n ++ x ∷ []
window-set q x i zero t len hi hn e =
    let e' : t ≡ i = omega arith in rw (e', get_or-set_self q i x [] (omega arith))
window-set q x i (suc n) t len hi hn e =
    ap₂ ◌∷◌ (get_or-set_ne q t i x [] (omega arith))
      (window-set q x ((i + 1) % 8) n t len (omega arith) (omega arith) (omega arith))

module _ (pc : ProxyConn) (v : IsValidSlot pc) where
  -- A packet of at most 512 bytes goes behind those that wait, if there are fewer than eight.
  pub waiting-push :
      (pkt : Bytes)
      → pc.count < fromradio_queue_depth
      → waiting (push_packet pkt pc) ≡ waiting pc ++ pkt ∷ []
  unfolding push_packet
  waiting-push pkt room =
      let e : (pc.count + 1) % 2 ^ 8 ≡ suc pc.count = omega arith in
      rw e (window-set pc.queue pkt pc.head pc.count pc.tail v.queue_size v.head_max room v.tail_at)

  pub push-IsValidSlot :
      (pkt : Bytes)
      → IsPacket pkt
      → pc.count < fromradio_queue_depth
      → IsValidSlot (push_packet pkt pc)
  unfolding push_packet
  push-IsValidSlot pkt small room = record {
    queue_size = length-set pc.queue pc.tail pkt ∙ v.queue_size;
    head_max = v.head_max;
    count_max = omega arith;
    tail_at = omega (arith, v.tail_at);
    packets = All-set IsPacket pc.queue pc.tail pkt v.packets small;
    staged_max = v.staged_max;
  }
