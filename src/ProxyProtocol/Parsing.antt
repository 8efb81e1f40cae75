-- ===== src/ProxyProtocol/Parsing.antt =====
-- `proxy_header_parse` of src/proxy_protocol.c against the wire format
-- [version][src][dst][content].
use meshtastic_ble_proxy.Base.{
  ◌<◌, ◌≡◌, none, some, [], ◌∷◌, ◌++◌, arith, length, get_or, Bytes, ◌⊎◌, ◌≢◌,
}
use meshtastic_ble_proxy.ProxyProtocol.{
  ProxyId, ProxyHeader, proxy_header_parse, proxy_version, proxy_id_size, proxy_header_size,
}

-- The wire format.
abbrev pub frame_of : ProxyId → ProxyId → Bytes → Bytes
frame_of src dst content = proxy_version ∷ (src ++ (dst ++ content))

-- What the parser accepts is a frame of the header that it returns, and the content's length is
-- that of the content.
parse-eq-some :
    (payload : Bytes) (hdr : ProxyHeader)
    → proxy_header_parse payload ≡ some hdr
    → (payload ≡ frame_of hdr.src hdr.dst hdr.content)
      × (length hdr.src ≡ proxy_id_size)
      × (length hdr.dst ≡ proxy_id_size)
      × (hdr.content_len ≡ length hdr.content)
unfolding proxy_header_parse
parse-eq-some (v ∷ a ∷ b ∷ c ∷ d ∷ e ∷ f ∷ g ∷ i ∷ content) hdr h = ground arith
parse-eq-some _ hdr h = absurd (ground arith)

-- Every frame is accepted, and read back as what it was made of.
pub parse-frame_of :
    (src dst : ProxyId) (content : Bytes)
    → length src ≡ proxy_id_size
    → length dst ≡ proxy_id_size
    → proxy_header_parse (frame_of src dst content)
      ≡ some (record { src = src; dst = dst; content = content; content_len = length content })
unfolding proxy_header_parse
parse-frame_of (a ∷ b ∷ c ∷ d ∷ []) (e ∷ f ∷ g ∷ i ∷ []) content hs hd = ground arith
parse-frame_of (a ∷ b ∷ c ∷ d ∷ []) _ content hs hd = absurd (omega arith)
parse-frame_of _ dst content hs hd = absurd (omega arith)

-- The parser refuses a payload just where it is shorter than a header or has another version.
pub parse-eq-none :
    (payload : Bytes)
    → proxy_header_parse payload ≡ none
    → (length payload < proxy_header_size) ⊎ (get_or payload 0 0 ≢ proxy_version)
unfolding proxy_header_parse
parse-eq-none payload h = ground arith
