-- ===== src/ProxyProtocol.antt =====
-- src/proxy_protocol.c and src/proxy_protocol.h: the proxy header that is carried in a packet's
-- payload, its parser and builder, and the 4-byte identifiers. A pointer with its length is a list;
-- `content` of the builder keeps its own length, since it may be NULL.
pub mod Parsing
pub mod Building
pub mod Ids
pub mod Printing
mod Tests
use meshtastic_ble_proxy.Base.{
  ℕ, zero, suc, ◌+◌, ◌-◌, ◌%◌, ◌^◌, Bool, true, false, ◌&&◌, Option, none, some, ltb, ◌==◌,
  if◌then◌else◌, length, set, take, drop, replicate, get_or, Bytes, copy_at, slice,
}

abbrev pub proxy_portnum : ℕ
proxy_portnum = 256

abbrev pub proxy_practical_max : ℕ
proxy_practical_max = 200

abbrev pub proxy_version : ℕ
proxy_version = 0x01

abbrev pub proxy_id_size : ℕ
proxy_id_size = 4

abbrev pub proxy_header_size : ℕ
proxy_header_size = 1 + proxy_id_size + proxy_id_size

abbrev pub proxy_content_max : ℕ
proxy_content_max = proxy_practical_max - proxy_header_size

abbrev pub proxy_off_src : ℕ
proxy_off_src = 1

abbrev pub proxy_off_dst : ℕ
proxy_off_dst = proxy_off_src + proxy_id_size

abbrev pub proxy_off_content : ℕ
proxy_off_content = proxy_header_size

-- `proxy_id_t`: the `bytes` array.
abbrev pub ProxyId : Type 0
ProxyId = Bytes

-- `struct proxy_header`. `content` is the payload from the content offset on, as the pointer is.
pub record ProxyHeader : Type 0 where
  pub src : ProxyId
  pub dst : ProxyId
  pub content : Bytes
  pub content_len : ℕ

-- `none` is the result `false`. A read beyond the buffer would give 0; the length test excludes it.
unfoldable pub proxy_header_parse : Bytes → Option ProxyHeader
proxy_header_parse payload =
    if ltb (length payload) proxy_header_size
    then none
    else if get_or payload 0 0 == proxy_version
    then some (record {
      src = slice proxy_off_src proxy_id_size payload;
      dst = slice proxy_off_dst proxy_id_size payload;
      content = drop proxy_off_content payload;
      content_len = length payload - proxy_header_size;
    })
    else none

-- The content's copy: `content` is `none` for NULL.
copy_content : Bytes → Option Bytes → ℕ → Bytes
copy_content buf none content_len = buf
copy_content buf (some content) content_len =
    if ltb 0 content_len then copy_at buf proxy_off_content (take content_len content) else buf

-- The header and content written to `dst_buf`.
write_frame : ProxyId → ProxyId → Option Bytes → ℕ → Bytes → Bytes
unfolding copy_content
write_frame src dst content content_len dst_buf =
    let versioned = set dst_buf 0 proxy_version in
    let with_src = copy_at versioned proxy_off_src (take proxy_id_size src) in
    let with_dst = copy_at with_src proxy_off_dst (take proxy_id_size dst) in
    copy_content with_dst content content_len

-- The returned length, and `dst_buf` afterwards.
pub proxy_header_build : ProxyId → ProxyId → Option Bytes → ℕ → Bytes → ℕ → ℕ × Bytes
proxy_header_build src dst content content_len dst_buf dst_buf_size =
    if ltb proxy_content_max content_len
    then (0, dst_buf)
    else let total = (proxy_header_size + content_len) % 2 ^ 16 in
      if ltb dst_buf_size total
      then (0, dst_buf)
      else (total, write_frame src dst content content_len dst_buf)

-- memcmp(a, b, n) == 0
memeq : ℕ → Bytes → Bytes → Bool
memeq zero a b = true
memeq (suc n) a b = (get_or a 0 0 == get_or b 0 0) && memeq n (drop 1 a) (drop 1 b)

unfoldable pub proxy_id_equal : ProxyId → ProxyId → Bool
unfolding memeq
proxy_id_equal a b = memeq proxy_id_size a b

-- The loop over the bytes, `n` rounds from its index on.
all_zero : ℕ → Bytes → Bool
all_zero zero bytes = true
all_zero (suc n) bytes =
    let rest = all_zero n (drop 1 bytes) in if get_or bytes 0 0 == 0 then rest else false

unfoldable pub proxy_id_is_zero : ProxyId → Bool
unfolding all_zero
proxy_id_is_zero id = all_zero proxy_id_size id

-- The string is its bytes before the terminator; `none` is NULL.
pub proxy_id_from_str : Option Bytes → ProxyId
proxy_id_from_str none = replicate proxy_id_size 0
proxy_id_from_str (some str) =
    let len = length str in
    let n = if ltb proxy_id_size len then proxy_id_size else len in
    copy_at (replicate proxy_id_size 0) 0 (take n str)
