-- ===== src/Ble.antt =====
-- src/ble_gatt.c and src/ble_gatt.h: the per-phone state, the connection slots, the packet queues,
-- the reads and writes of the phones, and the replay of the cached burst.
pub mod State
pub mod Connections
pub mod Start
pub mod Queue
pub mod Reads
pub mod Burst
pub mod Table
pub mod Sample
mod Tests
