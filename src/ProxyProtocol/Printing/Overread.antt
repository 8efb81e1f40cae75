-- ===== src/ProxyProtocol/Printing/Overread.antt =====
-- What the printers of src/proxy_protocol.c read.
use meshtastic_ble_proxy.Base.{ℕ, ◌+◌, ◌<◌, ◌≡◌, refl, none, some, [], ◌∷◌, arith, length, Bytes}
use meshtastic_ble_proxy.ProxyProtocol.{ProxyId, ProxyHeader, proxy_id_size}
use meshtastic_ble_proxy.ProxyProtocol.Printing.{
  proxy_id_str_size, id_text, id_string, proxy_id_to_str, proxy_header_to_str,
}

-- An identifier has four bytes, and the UUID text reads sixteen.
id_text-eq-none : (b : ProxyId) → length b ≡ proxy_id_size → id_text b ≡ none
unfolding id_text
id_text-eq-none (c ∷ d ∷ e ∷ f ∷ []) h = refl
id_text-eq-none _ h = absurd (omega arith)

-- With a buffer to print into, both printers read beyond the four bytes of an identifier, whatever
-- the identifier or the header is: their behaviour is undefined.
pub to_str-overreads :
    (id : ProxyId) (hdr : ProxyHeader) (out : Bytes) (out_size : ℕ)
    → length id ≡ proxy_id_size
    → length hdr.src ≡ proxy_id_size
    → 0 < out_size
    → (proxy_id_to_str (some id) (some out) out_size ≡ none)
      × (proxy_header_to_str (some hdr) (some out) out_size ≡ none)
unfolding proxy_id_to_str proxy_header_to_str id_string
to_str-overreads id hdr out out_size h k room =
    (ground (arith, id_text-eq-none id h), ground (arith, id_text-eq-none hdr.src k))

-- Of sixteen bytes, as the comment in the header file has it, the text is 36 characters long, and
-- fits with its terminating zero in the 37 bytes that the header file asks for.
pub id_text-length :
    (a0 a1 a2 a3 a4 a5 a6 a7 a8 a9 a10 a11 a12 a13 a14 a15 : ℕ) (rest : Bytes)
    → (text : Bytes) × (length text + 1 ≡ proxy_id_str_size)
      × (id_text (
            a0 ∷ a1 ∷ a2 ∷ a3 ∷ a4 ∷ a5 ∷ a6 ∷ a7 ∷ a8 ∷ a9 ∷ a10 ∷ a11 ∷ a12 ∷ a13 ∷ a14 ∷ a15
            ∷ rest)
          ≡ some text)
unfolding id_text
id_text-length a0 a1 a2 a3 a4 a5 a6 a7 a8 a9 a10 a11 a12 a13 a14 a15 rest = (_, refl, refl)
