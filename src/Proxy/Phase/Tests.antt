-- ===== src/Proxy/Phase/Tests.antt =====
-- The session of src/upstream_session.c from boot into its fetch.
use meshtastic_ble_proxy.Base.{Option, some, [], ◌∷◌, Bytes, ℕ, arith}
use meshtastic_ble_proxy.Nanopb.Sample.{sample_nanopb}
use meshtastic_ble_proxy.Proxy.{Proxy, proxy_at_boot, session_starts, on_fromradio_uart}
use meshtastic_ble_proxy.Proxy.Soundness.Steps
use meshtastic_ble_proxy.Proxy.Soundness.Steps.{from_node, locally, boots, next}
use meshtastic_ble_proxy.Proxy.Phase.{Moves, InPhase}
use meshtastic_ble_proxy.Proxy.Phase.Steps.{reachable-Follow}

abbrev attr_read : Bytes → ℕ → ℕ → Option Bytes
attr_read value len offset = some value

-- The session has started, and a frame of the burst comes.
abbrev started : Proxy
started = session_starts sample_nanopb 1 proxy_at_boot

abbrev fed : Proxy
fed = on_fromradio_uart sample_nanopb started (4 ∷ 1 ∷ [])

reachable-Follow_example :
    InPhase started.upstream started.cache × Moves started.upstream.state fed.upstream.state
reachable-Follow_example =
    reachable-Follow sample_nanopb attr_read started fed
      (next proxy_at_boot started boots
        (locally proxy_at_boot started (Steps.start proxy_at_boot 1)))
      (from_node started (4 ∷ 1 ∷ []) (omega arith))
