-- ===== src/Ble/Sample.antt =====
-- Two phones in the slots of src/ble_gatt.c, for the tests.
use meshtastic_ble_proxy.Base.{zero, suc, ◌≡◌, refl, true, some, [], ◌∷◌, arith}
use meshtastic_ble_proxy.Ble.State.{ProxyConn, Ble, empty_slot, ble_at_boot, find_slot, active}
use meshtastic_ble_proxy.Ble.Connections.Slots.{slot_of, IsDistinct}
use meshtastic_ble_proxy.Ble.Queue.Fifo.{IsValidSlot}

-- Registered, with nothing waiting.
abbrev pub first_phone : ProxyConn
first_phone = record empty_slot { conn = some 7; proxy_id = 65 ∷ 76 ∷ 73 ∷ 67 ∷ []; state = active }

-- With one packet waiting, stored at the ring's end.
abbrev pub second_phone : ProxyConn
second_phone = record empty_slot {
  conn = some 9;
  proxy_id = 66 ∷ 79 ∷ 66 ∷ 0 ∷ [];
  state = active;
  queue = [] ∷ [] ∷ [] ∷ [] ∷ [] ∷ [] ∷ [] ∷ (2 ∷ 1 ∷ []) ∷ [];
  head = 7;
  count = 1;
}

abbrev pub two_phones : Ble
two_phones = record ble_at_boot {
  conns = first_phone ∷ second_phone ∷ empty_slot ∷ empty_slot ∷ empty_slot ∷ empty_slot ∷ [];
  active_conn_count = 2;
  toradio_handler = true;
}

pub two_phones-IsDistinct : IsDistinct two_phones.conns
unfolding find_slot
two_phones-IsDistinct zero pc conn at holds = ground arith
two_phones-IsDistinct (suc zero) pc conn at holds = ground arith
two_phones-IsDistinct (suc (suc zero)) pc conn at holds = absurd (ground arith)
two_phones-IsDistinct (suc (suc (suc zero))) pc conn at holds = absurd (ground arith)
two_phones-IsDistinct (suc (suc (suc (suc zero)))) pc conn at holds = absurd (ground arith)
two_phones-IsDistinct (suc (suc (suc (suc (suc zero))))) pc conn at holds = absurd (ground arith)
two_phones-IsDistinct (suc (suc (suc (suc (suc (suc i)))))) pc conn at holds = absurd (ground arith)

pub first_phone-IsValidSlot : IsValidSlot first_phone
first_phone-IsValidSlot = record {
  queue_size = refl;
  head_max = omega arith;
  count_max = omega arith;
  tail_at = refl;
  packets = ground arith;
  staged_max = omega arith;
}

pub second_phone-IsValidSlot : IsValidSlot second_phone
second_phone-IsValidSlot = record {
  queue_size = refl;
  head_max = omega arith;
  count_max = omega arith;
  tail_at = refl;
  packets = ground arith;
  staged_max = omega arith;
}

pub first_slot : slot_of two_phones.conns 7 ≡ some first_phone
unfolding find_slot
first_slot = refl

pub second_slot : slot_of two_phones.conns 9 ≡ some second_phone
unfolding find_slot
second_slot = refl
