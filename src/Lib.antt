-- ===== src/Lib.antt =====
-- Verification of the Meshtastic BLE proxy's firmware.
--
-- The proxy stands between one Meshtastic node, on a serial line, and up to six phones, over
-- Bluetooth LE. It fetches the node's configuration once, keeps it in a cache, and replays it to
-- every phone that asks, so that many phones share one node. Afterwards it routes live packets
-- from the node to the phones and what the phones write to the node.
--
-- The parts, and the files that model them:
--
-- - src/proxy_protocol.c: the header of the proxy's own packets. ProxyProtocol; its parser in
--   ProxyProtocol/Parsing, its builder in ProxyProtocol/Building, identifiers in
--   ProxyProtocol/Ids, the printers in ProxyProtocol/Printing.
-- - src/config_cache.c: the frames of the burst, packed in an arena with an index. ConfigCache;
--   the representation in ConfigCache/Layout, the abstract list of frames in ConfigCache/Frames,
--   the segments that nonces ask for in ConfigCache/Segments, the queueStatus in
--   ConfigCache/QueueStatus. ConfigCache/Client is the header's interface: a store behind its
--   operations, programs of calls, the plain list that answers them alike, and caches up to what
--   clients see.
-- - src/proto_handler.c: the fields that routing reads, and the three messages that the proxy
--   makes. Proto, over nanopb in Nanopb; what is encoded and decoded again in Proto/RoundTrip.
-- - src/uart_meshtastic.c: the serial framing. Uart; reception in Uart/Receive, the transmit
--   queue in Uart/Transmit and how it runs empty in Uart/Progress, the timeout in Uart/Timeout.
--   Uart/Driver is the side of Zephyr's driver: `uart_cb`, the ring buffer and the
--   initialisation, with every order of its events in Uart/Driver/Line, what follows a lost
--   reception in Uart/Driver/Line/Recovery, what a full ring buffer loses in
--   Uart/Driver/Overflow, and what comes of the line's bytes in Uart/Driver/Delivery.
-- - Leds: the activity LEDs of src/ble_gatt.c and src/uart_meshtastic.c.
-- - src/ble_gatt.c: the phones. Ble/State holds the slots, Ble/Connections what connects and
--   registers them, Ble/Start the initialisation, Ble/Queue the packet queues, Ble/Reads the
--   reads with their replay of the cache and, in Ble/Reads/Long, in parts, Ble/Reads/Stream what
--   goes into a phone's queue against what comes out, Ble/Burst the arming of replays, Ble/Table
--   the invariant of the slots under each of these, and in Ble/Table/Fresh the slot that a phone
--   is given.
-- - src/upstream_session.c: the session with the node. Upstream; the burst in Upstream/Session,
--   the phones that wait in Upstream/Waiting, nonces in Upstream/Nonces, the outcomes of its
--   handlers in Upstream/Outcomes, counters in Upstream/Phase0 and Upstream/Stats, closing frames
--   and heartbeats once decoded in Upstream/Codec.
-- - src/router.c and src/main.c: Proxy puts the state of all modules together and routes between
--   them. Frames from the node are in Proxy/Routing, phones' writes in Proxy/Phones, the burst's
--   end in Proxy/Serving, phones that go before it in Proxy/Stale, whole bursts in Proxy/Bursts,
--   the keepalive in Proxy/Keepalive. Proxy/Soundness gives the steps of the whole proxy and the
--   invariant of its reachable states, Proxy/Phase the phases of the session over the same steps,
--   and Proxy/Parked the phones that are parked. Proxy/Service is the GATT table of
--   src/ble_gatt.c and the handlers that requests come to.
-- - `main` of src/main.c: Firmware puts the proxy and its serial port together. Firmware/Boot has
--   what comes of `main`, Firmware/Early what phones can do before the serial port is started,
--   Firmware/Soundness the steps of the whole from there on, Firmware/Interleaving `main` call by
--   call with steps between the calls, Firmware/Serial the way from the bytes on the line to what
--   a phone reads.
-- - Base holds what all share: lists, buffers, searches, tests and codes.
--
-- A function of the source is a function of the same name from the module's state to its result
-- and the next state. Module variables are fields of a record (`Cache`, `Tx`, `Ble`, `Upstream`),
-- and `Proxy` is the record of these. A callback that one module registers with another is an
-- argument: the session's serve callback is `serve`, and `Proxy` fills it with the replay of
-- src/ble_gatt.c. What the Bluetooth stack is asked to do is a list of effects.
--
-- Numbers are natural numbers with the wrap-around of the C types written out. Buffers have their
-- length in C: the arena has 4096 bytes and 128 entries, a payload 512 bytes, a phone's queue
-- eight packets, the transmit queue four, the ring buffer 1024 bytes. Loops are recursion on
-- their bound. Fuel stands in three places: five for the digits of a 16-bit number in a printer,
-- which has no more, in `work_queue` of Uart/Progress, where two more than the packets that wait
-- are enough, and the parts of `long_read`, where as many are enough as hold more bytes than the
-- packet.
--
-- Parameters: nanopb and the code generated from the .proto files are the record `Nanopb`, of
-- which the theorems assume only that the tags of one message differ, that an encoded closing
-- frame fits its 16 bytes, and in Upstream/Codec that the messages of the proxy are decoded to
-- what was encoded. How many bytes `ring_buf_put` writes is a parameter with its documented
-- bounds. The part of a value that a GATT read is given (`bt_gatt_attr_read`, in Ble/Reads/Long
-- as documented), the answers of Zephyr's drivers and of the Bluetooth stack, and random words
-- are arguments. The attributes that Zephyr's macros make of the GATT table, and which requests
-- its stack lets through, are parameters of Proxy/Service with their documented laws. The
-- handlers run on one work queue or under a slot's mutex, so each is one step.
--
-- Not modelled: logging and tracing, with the CCC callbacks, which only log, and the advertising
-- data, a constant handed to the Bluetooth stack. In the steps between the calls of `main`, in
-- Firmware/Interleaving, the transmit work item does not run before the serial device is set,
-- since `uart_tx` has no device then; that it can come to that is shown in Firmware/Early. The
-- ready flag of the cache is a Boolean, without its memory order. When encoding a closing frame
-- fails, bytes that nanopb has written into the slot's buffer by then are left out.
pub mod Base
pub mod ProxyProtocol
pub mod Nanopb
pub mod ConfigCache
pub mod Uart
pub mod Proto
pub mod Ble
pub mod Upstream
pub mod Proxy
pub mod Leds
pub mod Firmware
