-- ===== src/ProxyProtocol/Building.antt =====
-- `proxy_header_build` of src/proxy_protocol.c: what it writes, when it refuses, and that the
-- parser reads it back.
use meshtastic_ble_proxy.Base.{
  ℕ, zero, suc, ◌+◌, ◌≤◌, ◌<◌, ◌≡◌, refl, ap, ◌∙◌, Option, some, [], ◌∷◌, ◌++◌, arith, length, take,
  drop, Bytes, copy_at, set, take-copy_at, length-copy_at, length-set, append_assoc, take-all,
  drop-copy_at, ◌⊎◌,
}
use meshtastic_ble_proxy.ProxyProtocol.{
  ProxyId, proxy_header_parse, proxy_header_build, proxy_version, proxy_id_size, proxy_header_size,
  proxy_content_max, write_frame, copy_content,
}
use meshtastic_ble_proxy.ProxyProtocol.Parsing.{frame_of, parse-frame_of}

copy_at-nil : (xs : Bytes) (off : ℕ) → copy_at xs off [] ≡ xs
copy_at-nil [] off = refl
copy_at-nil (x ∷ xs) zero = refl
copy_at-nil (x ∷ xs) (suc off) = ap (◌∷◌ x) (copy_at-nil xs off)

-- The test on the length and on NULL changes nothing: an empty content is copied to no effect.
copy_content-some :
    (buf content : Bytes)
    → copy_content buf (some content) (length content) ≡ copy_at buf proxy_header_size content
unfolding copy_content
copy_content-some buf content = ground (
  arith,
  take-all (length content) content,
  copy_at-nil buf proxy_header_size,
  length_zero content,
)
  where
    length_zero : (xs : Bytes) → length xs ≡ 0 → xs ≡ []
    length_zero [] h = refl
    length_zero (x ∷ xs) h = absurd (omega arith)

take_one-set : (buf : Bytes) (v : ℕ) → 1 ≤ length buf → take 1 (set buf 0 v) ≡ v ∷ []
take_one-set [] v h = absurd (omega arith)
take_one-set (x ∷ xs) v h = refl

module _ (src dst : ProxyId) (content buf : Bytes) (src_size : length src ≡ proxy_id_size)
    (dst_size : length dst ≡ proxy_id_size)
    (fits : proxy_header_size + length content ≤ length buf) where
  with_src : Bytes
  with_src = copy_at (set buf 0 proxy_version) 1 src

  with_dst : Bytes
  unfolding with_src
  with_dst = copy_at with_src 5 dst

  length-with_src : length with_src ≡ length buf
  unfolding with_src
  length-with_src = length-copy_at (set buf 0 proxy_version) 1 src ∙ length-set buf 0 proxy_version

  length-with_dst : length with_dst ≡ length buf
  unfolding with_dst
  length-with_dst = length-copy_at with_src 5 dst ∙ length-with_src

  write_frame_lem :
      write_frame src dst (some content) (length content) buf ≡ copy_at with_dst 9 content
  unfolding write_frame with_dst
  write_frame_lem =
      rw (take-all 4 src (omega arith), take-all 4 dst (omega arith))
        (copy_content-some (copy_at (copy_at (set buf 0 proxy_version) 1 src) 5 dst) content)

  take_five : take 5 with_src ≡ proxy_version ∷ src
  unfolding with_src
  take_five =
      take-copy_at (set buf 0 proxy_version) 1 4 src src_size
        (omega (arith, length-set buf 0 proxy_version))
      ∙ ap (λ xs. xs ++ src) (take_one-set buf proxy_version (omega arith))

  take_nine : take 9 with_dst ≡ proxy_version ∷ (src ++ dst)
  unfolding with_dst
  take_nine =
      take-copy_at with_src 5 4 dst dst_size (omega (arith, length-with_src))
      ∙ ap (λ xs. xs ++ dst) take_five

  -- The bytes of the buffer up to the frame's end are the frame.
  take-write_frame :
      take (9 + length content) (write_frame src dst (some content) (length content) buf)
      ≡ frame_of src dst content
  take-write_frame =
      ap (take (9 + length content)) write_frame_lem
      ∙ take-copy_at with_dst 9 (length content) content refl (omega (arith, length-with_dst))
      ∙ ap (λ xs. xs ++ content) take_nine
      ∙ ap (◌∷◌ proxy_version) (append_assoc src dst content)

  -- What stands behind the frame is left.
  drop-write_frame :
      drop (9 + length content) (write_frame src dst (some content) (length content) buf)
      ≡ drop (9 + length content) buf
  unfolding with_dst
  drop-write_frame =
      ap (drop (9 + length content)) write_frame_lem
      ∙ drop-copy_at with_dst 9 (9 + length content) content (omega arith)
      ∙ drop-copy_at with_src 5 (9 + length content) dst (omega arith)
      ∙ drop-copy_at (set buf 0 proxy_version) 1 (9 + length content) src (omega arith)
      ∙ drop-copy_at_set buf proxy_version (8 + length content)
    where
      drop-copy_at_set :
          (xs : Bytes) (v n : ℕ)
          → drop (9 + length content) (set xs 0 v) ≡ drop (9 + length content) xs
      drop-copy_at_set [] v n = refl
      drop-copy_at_set (x ∷ xs) v n =
          let e : 9 + length content ≡ suc (8 + length content) = omega arith in rw e

  -- The builder succeeds on content of at most 191 bytes with room for the frame. It returns the
  -- frame's length and has written the frame at the buffer's start and nothing behind it.
  pub build-frame_of :
      (dst_buf_size : ℕ)
      → length content ≤ proxy_content_max
      → proxy_header_size + length content ≤ dst_buf_size
      → let (total, out) =
          proxy_header_build src dst (some content) (length content) buf dst_buf_size in
        (total ≡ proxy_header_size + length content)
        × (take total out ≡ frame_of src dst content)
        × (drop total out ≡ drop total buf)
  unfolding proxy_header_build
  build-frame_of dst_buf_size small room = ground (arith, take-write_frame, drop-write_frame)

  -- What the builder wrote, cut to the length that it returned, the parser reads back.
  pub parse-build :
      (dst_buf_size : ℕ)
      → length content ≤ proxy_content_max
      → proxy_header_size + length content ≤ dst_buf_size
      → let (total, out) =
          proxy_header_build src dst (some content) (length content) buf dst_buf_size in
        proxy_header_parse (take total out)
        ≡ some (record { src = src; dst = dst; content = content; content_len = length content })
  parse-build dst_buf_size small room =
      rw (build-frame_of dst_buf_size small room).1
        (parse-frame_of src dst content src_size dst_size)

-- The builder refuses content above 191 bytes and buffers below the frame's length: it returns 0 and
-- leaves the buffer as it was. In every other case it returns the frame's length.
build_cases :
    (src dst : ProxyId) (content : Option Bytes) (content_len : ℕ) (buf : Bytes) (size : ℕ)
    → let (total, out) = proxy_header_build src dst content content_len buf size in
      (((proxy_content_max < content_len) ⊎ (size < proxy_header_size + content_len))
        × (total ≡ 0)
        × (out ≡ buf))
      ⊎ ((content_len ≤ proxy_content_max)
          × (proxy_header_size + content_len ≤ size)
          × (total ≡ proxy_header_size + content_len))
unfolding proxy_header_build
build_cases src dst content content_len buf size = ground arith
