-- ===== src/Ble/Tests.antt =====
-- src/ble_gatt.c with two phones.
use meshtastic_ble_proxy.Base.{
  drop, List, All, Option, ℕ, ◌+◌, ◌%◌, ◌^◌, ◌≡◌, ◌≢◌, refl, some, [], ◌∷◌, ◌++◌, arith, map, take,
  length, count_if, ok, false, Bytes, ◌⊎◌,
}
use meshtastic_ble_proxy.Nanopb.Sample.{sample_tags, sample_tags-HasDistinctTags}
use meshtastic_ble_proxy.ProxyProtocol.{ProxyId, proxy_id_size}
use meshtastic_ble_proxy.ConfigCache.{Cache, cache_at_boot, cache_add_frame}
use meshtastic_ble_proxy.ConfigCache.Layout.{IsValid, at_boot-IsValid, cache_add_frame-IsValid}
use meshtastic_ble_proxy.ConfigCache.Frames.{frames}
use meshtastic_ble_proxy.ConfigCache.Segments.{segment}
use meshtastic_ble_proxy.Ble.State.{Conn, ProxyConn, replaying, find_slot, ble_at_boot}
use meshtastic_ble_proxy.Ble.Sample.{
  first_phone, second_phone, two_phones, two_phones-IsDistinct, second_phone-IsValidSlot,
  first_slot, second_slot,
}
use meshtastic_ble_proxy.Ble.Connections.{
  on_connected, node_reg_write, taken, invalid_attribute_len,
}
use meshtastic_ble_proxy.Ble.Connections.Slots.{slot_of}
use meshtastic_ble_proxy.Ble.Connections.Registry.{node_reg_write-slot}
use meshtastic_ble_proxy.Ble.Queue.{ble_gatt_broadcast_fromradio}
use meshtastic_ble_proxy.Ble.Queue.Fifo.{waiting}
use meshtastic_ble_proxy.Ble.Queue.Broadcast.{broadcast-gives_all, takes, given}
use meshtastic_ble_proxy.Ble.Table.Operations.{at_boot-IsValidBle}
use meshtastic_ble_proxy.Ble.Table.Fresh.{IsFresh, on_connected-IsFresh}
use meshtastic_ble_proxy.Ble.Reads.Replay.{fresh_reads}
use meshtastic_ble_proxy.Ble.Reads.{stage}
use meshtastic_ble_proxy.Ble.Reads.Long.{
  IsAttrRead, Between, queue, read, IsOther, all_between, long_read,
}
use meshtastic_ble_proxy.Ble.Reads.Long.Packet.{long_read-staged}
use meshtastic_ble_proxy.Ble.Reads.Drain.{replay_then_live}
use meshtastic_ble_proxy.Ble.Reads.Stream.{filled, IsLive, accepted, served, gathered}
use meshtastic_ble_proxy.Ble.Reads.Stream.Order.{stream-balances}

abbrev packet : Bytes
packet = 2 ∷ 5 ∷ []

broadcast-gives_all_example :
    let (sent, b') = ble_gatt_broadcast_fromradio two_phones packet in
    (b'.conns ≡ map (given packet) two_phones.conns) × (sent ≡ count_if takes two_phones.conns)
broadcast-gives_all_example =
    broadcast-gives_all two_phones packet refl two_phones-IsDistinct (omega arith)

abbrev carol : ProxyId
carol = 67 ∷ 65 ∷ 82 ∷ 79 ∷ []

node_reg_write-slot_example :
    let offset : ℕ = 0 in
    let (answer, b') = node_reg_write two_phones 7 carol offset in
    ((offset ≡ 0)
      × (length carol ≡ proxy_id_size)
      × (answer ≡ taken proxy_id_size)
      × (slot_of b'.conns 7 ≡ some (record first_phone { proxy_id = carol }))
      × ((other : Conn) → other ≢ 7 → slot_of b'.conns other ≡ slot_of two_phones.conns other))
    ⊎ (((offset ≢ 0) ⊎ (length carol ≢ proxy_id_size))
        × (answer ≡ invalid_attribute_len)
        × (b' ≡ two_phones))
node_reg_write-slot_example = node_reg_write-slot two_phones 7 carol 0 first_phone first_slot

abbrev one_node : Cache
one_node = (cache_add_frame sample_tags cache_at_boot (4 ∷ 1 ∷ []) 4).1

one_node-IsValid : IsValid sample_tags one_node
one_node-IsValid =
    cache_add_frame-IsValid sample_tags cache_at_boot (4 ∷ 1 ∷ []) 4 (at_boot-IsValid sample_tags)

-- In replay, with a live packet that came meanwhile.
abbrev reader : ProxyConn
reader = record second_phone { state = replaying; nonce = 5; cc_frame = 7 ∷ 5 ∷ 0 ∷ []; cc_len = 2 }

replay_then_live_example :
    let seg = segment sample_tags 5 (frames one_node) in
    (fresh_reads sample_tags one_node ((length seg + 2) + (1 + 1)) reader).0
    ≡ (map (λ f. f.bytes) seg ++ take 2 reader.cc_frame ∷ [] ∷ []) ++ (waiting reader ++ [] ∷ [])
replay_then_live_example =
    replay_then_live sample_tags one_node reader sample_tags-HasDistinctTags one_node-IsValid refl
      refl

on_connected-IsFresh_example :
    let b' = on_connected ble_at_boot 7 false ok in
    (pc : ProxyConn) × (slot_of b'.conns 7 ≡ some pc)
    × IsFresh pc
    × ((other : Conn) → other ≢ 7 → slot_of b'.conns other ≡ slot_of ble_at_boot.conns other)
unfolding find_slot
on_connected-IsFresh_example =
    on_connected-IsFresh ble_at_boot 7 ok at_boot-IsValidBle refl (omega arith)

-- The part of the value from the offset on, as far as the buffer goes.
abbrev attr_read : Bytes → ℕ → ℕ → Option Bytes
attr_read value len offset = some (take len (drop offset value))

attr_read-IsAttrRead : IsAttrRead attr_read
attr_read-IsAttrRead value len offset h = refl

-- Another packet is queued for the reader and the other phone reads before each part.
abbrev meanwhile : ℕ → List Between
meanwhile n = queue 9 packet ∷ read 7 20 0 ∷ []

meanwhile-IsOther : (n : ℕ) → All (IsOther 9) (meanwhile n)
unfolding IsOther
meanwhile-IsOther n = ground arith

long_read-staged_example :
    long_read attr_read sample_tags one_node meanwhile 9 1 3 0 two_phones
    ≡ some (stage sample_tags one_node second_phone).staged
unfolding stage
long_read-staged_example =
    long_read-staged attr_read sample_tags one_node attr_read-IsAttrRead meanwhile 9 1 (omega arith)
      meanwhile-IsOther 3 two_phones second_phone second_slot (omega arith)

-- Both phones are given packets, and both read, one of them in parts.
abbrev mixed : List Between
mixed =
    queue 9 packet
    ∷ read 9 512 0
    ∷ queue 7 packet
    ∷ read 7 20 0
    ∷ read 9 1 0
    ∷ read 9 1 1
    ∷ queue 9 (2 ∷ 6 ∷ [])
    ∷ []

stream-balances_example :
    let ins = gathered attr_read sample_tags one_node (accepted 9) two_phones mixed in
    let outs =
      gathered attr_read sample_tags one_node
        (served attr_read sample_tags one_node 9)
        two_phones
        mixed in
    (q : ProxyConn) × (slot_of (all_between attr_read sample_tags one_node two_phones mixed).conns 9
      ≡ some q)
    × IsLive q
    × (filled (waiting second_phone ++ ins) ≡ filled (outs ++ waiting q))
    × (q.fromnum % 2 ^ 32 ≡ (second_phone.fromnum + length ins) % 2 ^ 32)
stream-balances_example =
    stream-balances attr_read sample_tags one_node 9 mixed two_phones second_phone second_slot
      (record { valid = second_phone-IsValidSlot; not_replaying = λ e. ground arith })
