-- ===== src/Proxy/Service.antt =====
-- The GATT service of src/ble_gatt.c: its table, and the handler that a phone's request comes to. The
-- attributes that Zephyr's macros make of the table, and whether its stack lets a request through,
-- are parameters.
pub mod Requests
mod Tests
use meshtastic_ble_proxy.Base.{
  ℕ, ◌≡◌, Bool, true, false, Option, none, some, List, [], ◌∷◌, ◌++◌, Bytes, if◌then◌else◌,
  get_elem?,
}
use meshtastic_ble_proxy.Nanopb.{Nanopb}
use meshtastic_ble_proxy.Ble.State.{Conn}
use meshtastic_ble_proxy.Ble.Connections.{node_reg_write}
use meshtastic_ble_proxy.Ble.Reads.{fromnum_read, fromradio_read}
use meshtastic_ble_proxy.Proxy.{Proxy, toradio_write}

-- The words of `BT_UUID_128_ENCODE`.
pub record Uuid : Type 0 where
  pub w32 : ℕ
  pub w1 : ℕ
  pub w2 : ℕ
  pub w3 : ℕ
  pub w48 : ℕ

abbrev bt_uuid_128_encode : ℕ → ℕ → ℕ → ℕ → ℕ → Uuid
bt_uuid_128_encode a b c d e = record { w32 = a; w1 = b; w2 = c; w3 = d; w48 = e }

abbrev uuid_meshtastic_svc : Uuid
uuid_meshtastic_svc = bt_uuid_128_encode 0x6ba1b218 0x15a8 0x461f 0x9fa8 0x5dcae273eafd

abbrev pub uuid_fromnum : Uuid
uuid_fromnum = bt_uuid_128_encode 0xed9da18c 0xa800 0x4f66 0xa670 0xaa7547e34453

abbrev pub uuid_fromradio : Uuid
uuid_fromradio = bt_uuid_128_encode 0x2c55e69e 0x4993 0x11ed 0xb878 0x0242ac120002

abbrev pub uuid_toradio : Uuid
uuid_toradio = bt_uuid_128_encode 0xf75c76d2 0x129e 0x4dad 0xa1dd 0x7866124401e7

abbrev pub uuid_logradio : Uuid
uuid_logradio = bt_uuid_128_encode 0x5a3d6e49 0x06e6 0x4423 0x9944 0xe9de8cdf9547

abbrev pub uuid_node_reg : Uuid
uuid_node_reg = bt_uuid_128_encode 0x6ba10001 0x15a8 0x461f 0x9fa8 0x5dcae273eafd

-- `BT_GATT_CHRC_…` and `BT_GATT_PERM_…`
pub data Property : Type 0 where
  chrc_read chrc_notify chrc_write chrc_write_without_resp : Property

pub data Permission : Type 0 where
  perm_read perm_write : Permission

-- The handlers that stand in the table.
pub data Reader : Type 0 where
  fromnum fromradio logradio : Reader

pub data Writer : Type 0 where
  toradio node_reg : Writer

-- The table's entries. A CCC's callback only logs.
pub data Entry : Type 0 where
  primary_service : Uuid → Entry
  characteristic : Uuid → List Property → List Permission → Option Reader → Option Writer → Entry
  ccc : List Permission → Entry

unfoldable pub meshtastic_svc : List Entry
meshtastic_svc =
    primary_service uuid_meshtastic_svc
    ∷ characteristic uuid_fromnum (chrc_read ∷ chrc_notify ∷ []) (perm_read ∷ []) (some fromnum)
        none
    ∷ ccc (perm_read ∷ perm_write ∷ [])
    ∷ characteristic uuid_fromradio (chrc_read ∷ []) (perm_read ∷ []) (some fromradio) none
    ∷ characteristic uuid_toradio (chrc_write ∷ chrc_write_without_resp ∷ []) (perm_write ∷ []) none
        (some toradio)
    ∷ characteristic uuid_logradio (chrc_read ∷ chrc_notify ∷ []) (perm_read ∷ []) (some logradio)
        none
    ∷ ccc (perm_read ∷ perm_write ∷ [])
    ∷ characteristic uuid_node_reg (chrc_write ∷ []) (perm_write ∷ []) none (some node_reg)
    ∷ []

abbrev pub fromnum_attr_idx : ℕ
fromnum_attr_idx = 2

abbrev pub logradio_attr_idx : ℕ
logradio_attr_idx = 9

-- An attribute: what the stack answers itself, a characteristic's value, or its configuration.
pub data Attribute : Type 0 where
  declaration : Attribute
  value : Uuid → List Property → List Permission → Option Reader → Option Writer → Attribute
  configuration : List Permission → Attribute

-- What the macros are documented to make: one attribute of a service and of a CCC, and two of a
-- characteristic, the second its value.
pub record IsExpansion (expand : Entry → List Attribute) : Type 0 where
  pub service : (u : Uuid) → expand (primary_service u) ≡ declaration ∷ []
  pub both :
      (u : Uuid) (props : List Property) (perms : List Permission) (r : Option Reader)
      (w : Option Writer)
      → expand (characteristic u props perms r w) ≡ declaration ∷ value u props perms r w ∷ []
  pub client : (perms : List Permission) → expand (ccc perms) ≡ configuration perms ∷ []

abbrev pub expanded : (Entry → List Attribute) → List Entry → List Attribute
expanded expand [] = []
expanded expand (e ∷ es) = expand e ++ expanded expand es

-- A phone's request.
pub data Request : Type 0 where
  read_at : (len offset : ℕ) → Request
  write_at : (buf : Bytes) (offset : ℕ) → Request

abbrev pub permits : Permission → List Permission → Bool
permits p [] = false
permits perm_read (perm_read ∷ ps) = true
permits perm_write (perm_write ∷ ps) = true
permits p (q ∷ ps) = permits p ps

abbrev pub permission : Request → Permission
permission (read_at len offset) = perm_read
permission (write_at buf offset) = perm_write

-- The stack is documented to refuse what the permissions of a value do not name.
abbrev pub IsGuard : (Attribute → Request → Bool) → Type 0
IsGuard lets =
    (u : Uuid) (props : List Property) (perms : List Permission) (r : Option Reader)
    (w : Option Writer) (q : Request)
    → lets (value u props perms r w) q ≡ true
    → permits (permission q) perms ≡ true

-- What comes of a request: the stack answers it, a handler of the table does, or the entry that it
-- would be handed to is NULL.
pub data Outcome : Type 0 where
  by_stack null_handler : Outcome
  handled : Proxy → Outcome

module _ (pb : Nanopb) (attr_read : Bytes → ℕ → ℕ → Option Bytes) where
  abbrev reads : Reader → Proxy → Conn → ℕ → ℕ → Proxy
  reads fromnum p conn len offset = record p {
    ble = (fromnum_read attr_read p.ble conn len offset).1;
  }
  reads fromradio p conn len offset = record p {
    ble = (fromradio_read attr_read pb.tags p.cache p.ble conn len offset).1;
  }
  reads logradio p conn len offset = p

  abbrev writes : Writer → Proxy → Conn → Bytes → ℕ → Proxy
  writes toradio p conn buf offset = (toradio_write pb p conn buf offset).1
  writes node_reg p conn buf offset = record p { ble = (node_reg_write p.ble conn buf offset).1 }

  abbrev pub calls : Attribute → Proxy → Conn → Request → Outcome
  calls (value u props perms (some r) w) p conn (read_at len offset) =
      handled (reads r p conn len offset)
  calls (value u props perms none w) p conn (read_at len offset) = null_handler
  calls (value u props perms r (some w)) p conn (write_at buf offset) =
      handled (writes w p conn buf offset)
  calls (value u props perms r none) p conn (write_at buf offset) = null_handler
  calls declaration p conn q = by_stack
  calls (configuration perms) p conn q = by_stack

  unfoldable pub request :
      (Attribute → Request → Bool) → List Attribute → Proxy → Conn → ℕ → Request → Outcome
  request lets attrs p conn i q = elim (get_elem? attrs i) [
    | none ↦ by_stack
    | some a ↦ if lets a q then calls a p conn q else by_stack
  ]
