-- ===== src/ProxyProtocol/Tests.antt =====
-- src/proxy_protocol.c on concrete headers.
use meshtastic_ble_proxy.Base.{◌≡◌, refl, some, none, [], ◌∷◌, arith, take, Bytes, replicate}
use meshtastic_ble_proxy.ProxyProtocol.Printing.{proxy_id_to_str, proxy_header_to_str, snprintf}
use meshtastic_ble_proxy.ProxyProtocol.Printing.Overread.{to_str-overreads}
use meshtastic_ble_proxy.ProxyProtocol.{
  ProxyId, ProxyHeader, proxy_header_parse, proxy_header_build,
}
use meshtastic_ble_proxy.ProxyProtocol.Parsing.{frame_of, parse-frame_of}
use meshtastic_ble_proxy.ProxyProtocol.Building.{parse-build}

abbrev alice : ProxyId
alice = 65 ∷ 76 ∷ 73 ∷ 67 ∷ []

abbrev bob : ProxyId
bob = 66 ∷ 79 ∷ 66 ∷ 0 ∷ []

abbrev hello : Bytes
hello = 104 ∷ 105 ∷ []

abbrev buffer : Bytes
buffer = replicate 12 7

abbrev header : ProxyHeader
header = record { src = alice; dst = bob; content = hello; content_len = 2 }

parse-build_example :
    let (total, out) = proxy_header_build alice bob (some hello) 2 buffer 12 in
    proxy_header_parse (take total out) ≡ some header
parse-build_example =
    parse-build alice bob hello buffer refl refl (omega arith) 12 (omega arith) (omega arith)

parse-frame_of_example : proxy_header_parse (frame_of alice bob hello) ≡ some header
parse-frame_of_example = parse-frame_of alice bob hello refl refl

to_str-overreads_example :
    (proxy_id_to_str (some alice) (some buffer) 12 ≡ none)
    × (proxy_header_to_str (some header) (some buffer) 12 ≡ none)
to_str-overreads_example = to_str-overreads alice header buffer 12 refl refl (omega arith)

-- With no room for a whole text it is cut, and ends in a zero.
null_cut :
    proxy_id_to_str none (some (1 ∷ 2 ∷ 3 ∷ 4 ∷ 5 ∷ [])) 4
    ≡ some (some (b'(' ∷ b'n' ∷ b'u' ∷ 0 ∷ 5 ∷ []))
unfolding proxy_id_to_str snprintf
null_cut = refl
