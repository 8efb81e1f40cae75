-- ===== src/Ble/State.antt =====
-- The module state of src/ble_gatt.c. A connection is a non-zero pointer of the Bluetooth stack, a
-- number here; NULL is `none`. A buffer with its length is a list: of a queue entry and of the
-- staging buffer only the bytes within the length are kept. Each handler that the slot's mutex
-- guards is one step, so the mutex itself is not part of the state.
use meshtastic_ble_proxy.Base.{
  ℕ, Bool, true, false, Option, none, some, List, [], ◌∷◌, ◌==◌, replicate, find_index?, Bytes,
}
use meshtastic_ble_proxy.ProxyProtocol.{ProxyId, proxy_id_size}

-- CONFIG_BT_MAX_CONN of prj.conf
abbrev pub max_ble_connections : ℕ
max_ble_connections = 6

abbrev pub fromradio_queue_depth : ℕ
fromradio_queue_depth = 8

abbrev pub fromradio_max_pkt_size : ℕ
fromradio_max_pkt_size = 512

abbrev pub cc_frame_size : ℕ
cc_frame_size = 16

abbrev pub Conn : Type 0
Conn = ℕ

-- `enum phone_state`
pub data PhoneState : Type 0 where
  connected await_want_config pending replaying active : PhoneState

-- `struct proxy_conn`
pub record ProxyConn : Type 0 where
  pub conn : Option Conn
  pub proxy_id : ProxyId
  pub fromnum : ℕ
  pub state : PhoneState
  pub nonce : ℕ
  pub replay_cursor : ℕ
  pub cc_frame : Bytes
  pub cc_len : ℕ
  pub queue : List Bytes
  pub head : ℕ
  pub tail : ℕ
  pub count : ℕ
  pub staged : Bytes

-- What the module asks of the Bluetooth stack.
pub data Effect : Type 0 where
  notify_fromnum : Conn → ℕ → Effect
  disconnect : Conn → Effect
  start_advertising : Effect

-- `conns`, `active_conn_count`, `toradio_handler` (whether it is set), the `s_qs` of
-- `ble_gatt_reply_queuestatus` (empty until encoded), the two activity flags and the LEDs' levels,
-- whether `led_blink_dwork` is scheduled, and the effects so far, the latest first.
pub record Ble : Type 0 where
  pub conns : List ProxyConn
  pub active_conn_count : ℕ
  pub toradio_handler : Bool
  pub qs : Bytes
  pub led_fromradio_active : Bool
  pub led_toradio_active : Bool
  pub led_fromradio : Bool
  pub led_toradio : Bool
  pub blinking : Bool
  pub effects : List Effect

abbrev pub empty_slot : ProxyConn
empty_slot = record {
  conn = none;
  proxy_id = replicate proxy_id_size 0;
  fromnum = 0;
  state = connected;
  nonce = 0;
  replay_cursor = 0;
  cc_frame = replicate cc_frame_size 0;
  cc_len = 0;
  queue = replicate fromradio_queue_depth [];
  head = 0;
  tail = 0;
  count = 0;
  staged = [];
}

-- The static variables at boot.
abbrev pub ble_at_boot : Ble
ble_at_boot = record {
  conns = replicate max_ble_connections empty_slot;
  active_conn_count = 0;
  toradio_handler = false;
  qs = [];
  led_fromradio_active = false;
  led_toradio_active = false;
  led_fromradio = false;
  led_toradio = false;
  blinking = false;
  effects = [];
}

abbrev pub emit : Effect → Ble → Ble
emit e b = record b { effects = e ∷ b.effects }

-- `conns[i].conn == conn`, for a pointer that is not NULL.
abbrev pub is_conn : Conn → ProxyConn → Bool
is_conn conn pc = elim pc.conn [ none ↦ false | some c ↦ c == conn ]

-- `conns[i].conn == NULL`
abbrev pub is_free : ProxyConn → Bool
is_free pc = elim pc.conn [ none ↦ true | some c ↦ false ]

-- The slot's index stands for the pointer to it.
unfoldable pub find_slot : List ProxyConn → Conn → Option ℕ
find_slot conns conn = find_index? (is_conn conn) conns
