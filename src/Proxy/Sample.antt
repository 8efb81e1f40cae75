-- ===== src/Proxy/Sample.antt =====
-- Data for the tests of the proxy: one that is live, and one that fetches with a phone parked.
use meshtastic_ble_proxy.Base.{
  ok, modify, take, drop, Option, ℕ, ◌≡◌, refl, some, [], ◌∷◌, arith, Bytes, true, false,
}
use meshtastic_ble_proxy.Nanopb.Sample.{sample_tags, sample_nanopb}
use meshtastic_ble_proxy.Proto.{proto_encode_config_complete, encoded}
use meshtastic_ble_proxy.ConfigCache.{Cache, cache_at_boot, cache_add_frame, cache_mark_ready}
use meshtastic_ble_proxy.ConfigCache.Layout.{IsValid, at_boot-IsValid, cache_add_frame-IsValid}
use meshtastic_ble_proxy.Uart.{tx_at_boot}
use meshtastic_ble_proxy.Ble.State.{
  Ble, ble_at_boot, ProxyConn, pending, empty_slot, find_slot, cc_frame_size,
}
use meshtastic_ble_proxy.Ble.Sample.{first_phone, second_phone, two_phones}
use meshtastic_ble_proxy.Ble.Connections.Slots.{slot_of}
use meshtastic_ble_proxy.Ble.Burst.Parked.{replay}
use meshtastic_ble_proxy.Upstream.{
  upstream_at_boot, fetching, live, is_pending, decode_config_complete_nonce,
}
use meshtastic_ble_proxy.Upstream.Waiting.{IsOnce}
use meshtastic_ble_proxy.Upstream.Session.{Incoming, IsEnd}
use meshtastic_ble_proxy.Ble.Table.Operations.{IsValidBle, at_boot-IsValidBle}
use meshtastic_ble_proxy.Ble.Table.Lifecycle.{connected-IsValidBle, park-IsValidBle}
use meshtastic_ble_proxy.Ble.Burst.{park_slot}
use meshtastic_ble_proxy.Ble.Connections.{on_connected, alloc_slot, ble_gatt_start_advertising}
use meshtastic_ble_proxy.Proxy.{Proxy}

abbrev pub one_node : Cache
one_node = (cache_add_frame sample_tags cache_at_boot (4 ∷ 1 ∷ []) 4).1

pub one_node-IsValid : IsValid sample_tags one_node
one_node-IsValid =
    cache_add_frame-IsValid sample_tags cache_at_boot (4 ∷ 1 ∷ []) 4 (at_boot-IsValid sample_tags)

-- Live, with a ready cache.
abbrev pub running : Proxy
running = record {
  ble = two_phones;
  cache = cache_mark_ready one_node;
  upstream = record upstream_at_boot { state = live };
  tx = tx_at_boot;
}

-- Fetching, with the first phone parked under the nonce 6.
abbrev pub parked_phone : ProxyConn
parked_phone = record first_phone { state = pending; nonce = 6 }

abbrev pub starting : Proxy
starting = record {
  ble = record two_phones {
    conns = parked_phone ∷ second_phone ∷ empty_slot ∷ empty_slot ∷ empty_slot ∷ empty_slot ∷ [];
  };
  cache = one_node;
  upstream = record upstream_at_boot {
    state = fetching;
    nonce = 5;
    pending = 7 ∷ [];
    serve_cb = true;
  };
  tx = tx_at_boot;
}

-- A frame that is no packet, as it is decoded.
abbrev pub frame_in : Bytes → ℕ → Incoming
frame_in payload variant = record {
  payload = payload;
  info = record {
    which_variant = variant;
    packet_from = 0;
    packet_to = 0;
    is_decoded = false;
    portnum = 0;
    payload = [];
  };
}

abbrev pub node_frame : Incoming
node_frame = frame_in (4 ∷ 2 ∷ []) 4

abbrev pub closing : Incoming
closing = frame_in (7 ∷ 5 ∷ []) 7

pub closing-IsEnd : IsEnd (replay sample_nanopb) sample_nanopb 5 closing
unfolding decode_config_complete_nonce
closing-IsEnd = (ground arith, refl, refl)

pub waits : is_pending 7 starting.upstream.pending ≡ true
unfolding is_pending
waits = refl

pub waits-IsOnce : IsOnce starting.upstream.pending
unfolding is_pending
waits-IsOnce = (refl, tt)

pub parked_slot : slot_of starting.ble.conns 7 ≡ some parked_phone
unfolding find_slot
parked_slot = refl

pub encodes_six : proto_encode_config_complete sample_nanopb 6 cc_frame_size ≡ encoded (7 ∷ 6 ∷ [])
unfolding proto_encode_config_complete
encodes_six = refl

-- The part of the value from the offset on, as far as the buffer goes.
abbrev pub attr_read : Bytes → ℕ → ℕ → Option Bytes
attr_read value len offset = some (take len (drop offset value))

-- One phone connects and is parked under the nonce 6.
abbrev joined : Ble
joined = on_connected ble_at_boot 7 false ok

abbrev pub parked : Ble
parked = record joined {
  conns = modify joined.conns 0 (λ pc. record pc { state = pending; nonce = 6 });
}

pub parked-IsValidBle : IsValidBle parked
unfolding park_slot find_slot on_connected alloc_slot ble_gatt_start_advertising
parked-IsValidBle =
    park-IsValidBle joined parked 7 6 refl
      (connected-IsValidBle ble_at_boot 7 false ok refl at_boot-IsValidBle)

abbrev pub lone_phone : ProxyConn
lone_phone = record empty_slot { conn = some 7; state = pending; nonce = 6 }
