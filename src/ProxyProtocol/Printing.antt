-- ===== src/ProxyProtocol/Printing.antt =====
-- The two printers of src/proxy_protocol.c. An array is a list, and a read past its end is undefined
-- behaviour: `none`. `snprintf` is the C library's, written out for the formats that are used.
pub mod Overread
use meshtastic_ble_proxy.Base.{
  ℕ, zero, suc, ◌+◌, ◌-◌, ◌/◌, ◌%◌, Bool, true, false, ◌||◌, Option, none, some, List, [], ◌∷◌,
  ◌++◌, ltb, ◌==◌, if◌then◌else◌, length, take, replicate, get_elem?, Bytes, copy_at,
}
use meshtastic_ble_proxy.ProxyProtocol.{ProxyId, ProxyHeader, proxy_version}

abbrev pub proxy_id_str_size : ℕ
proxy_id_str_size = 37

abbrev hex_digit : ℕ → ℕ
hex_digit d = if ltb d 10 then b'0' + d else b'a' + (d - 10)

-- `%02x` of a byte.
abbrev hex : ℕ → Bytes
hex b = hex_digit (b / 16) ∷ hex_digit (b % 16) ∷ []

-- `%u`, of a number with at most as many digits as the fuel.
decimal : ℕ → ℕ → Bytes
decimal zero n = []
decimal (suc fuel) n =
    let rest = decimal fuel (n / 10) in
    if ltb n 10 then (b'0' + n) ∷ [] else rest ++ (b'0' + n % 10) ∷ []

-- `%s`, up to the terminating zero.
text_of : Bytes → Bytes
text_of [] = []
text_of (c ∷ cs) = let rest = text_of cs in if c == 0 then [] else c ∷ rest

-- `snprintf` into a buffer of the size: at most one byte less of the text, and a zero.
unfoldable pub snprintf : Bytes → ℕ → Bytes → Bytes
snprintf out out_size text = copy_at out 0 (take (out_size - 1) text ++ 0 ∷ [])

abbrev null_text : Bytes
null_text = b'(' ∷ b'n' ∷ b'u' ∷ b'l' ∷ b'l' ∷ b')' ∷ []

infixl 5 ◌>>=◌
abbrev ◌>>=◌ : {A B : Type 0} → Option A → (A → Option B) → Option B
none >>= f = none
some a >>= f = f a

-- `b[i]`, `b[i + 1]`, … in hexadecimal, as many as asked for.
hex_run : Bytes → ℕ → ℕ → Option Bytes
hex_run b zero i = some []
hex_run b (suc n) i = do x ← get_elem? b i; rest ← hex_run b n (i + 1); some (hex x ++ rest)

-- The sixteen bytes in the grouping of a UUID.
pub id_text : Bytes → Option Bytes
unfolding hex_run
id_text b = do
  first ← hex_run b 4 0
  second ← hex_run b 2 4
  third ← hex_run b 2 6
  fourth ← hex_run b 2 8
  fifth ← hex_run b 6 10
  some (first ++ (b'-' ∷ (second ++ (b'-' ∷ (third ++ (b'-' ∷ (fourth ++ (b'-' ∷ fifth))))))))

-- The buffer's new content, where it is not NULL; `id` is `none` for NULL.
unfoldable pub proxy_id_to_str : Option ProxyId → Option Bytes → ℕ → Option (Option Bytes)
unfolding id_text
proxy_id_to_str id none out_size = some none
proxy_id_to_str id (some out) out_size = if out_size == 0 then some (some out) else elim id [
  | none ↦ some (some (snprintf out out_size null_text))
  | some b ↦ do text ← id_text b; some (some (snprintf out out_size text))
]

-- The line `[v..][src=..][dst=..][content=.. B]`.
header_text : Bytes → Bytes → ℕ → Bytes
unfolding decimal text_of
header_text src dst content_len =
    b'['
    ∷ b'v'
    ∷ (hex proxy_version
        ++ (b']'
            ∷ b'['
            ∷ b's'
            ∷ b'r'
            ∷ b'c'
            ∷ b'='
            ∷ (text_of src
                ++ (b']'
                    ∷ b'['
                    ∷ b'd'
                    ∷ b's'
                    ∷ b't'
                    ∷ b'='
                    ∷ (text_of dst
                        ++ (b']'
                            ∷ b'['
                            ∷ b'c'
                            ∷ b'o'
                            ∷ b'n'
                            ∷ b't'
                            ∷ b'e'
                            ∷ b'n'
                            ∷ b't'
                            ∷ b'='
                            ∷ (decimal 5 content_len ++ (b' ' ∷ b'B' ∷ b']' ∷ []))))))))

-- The two identifiers are printed into arrays of their own.
id_string : ProxyId → Option Bytes
unfolding proxy_id_to_str
id_string id = do
  printed ← proxy_id_to_str (some id) (some (replicate proxy_id_str_size 0)) proxy_id_str_size
  printed

unfoldable pub proxy_header_to_str : Option ProxyHeader → Option Bytes → ℕ → Option (Option Bytes)
unfolding id_string header_text
proxy_header_to_str hdr none out_size = some none
proxy_header_to_str hdr (some out) out_size = if out_size == 0 then some (some out) else elim hdr [
  | none ↦ some (some (snprintf out out_size null_text))
  | some h ↦ do
    src ← id_string h.src
    dst ← id_string h.dst
    some (some (snprintf out out_size (header_text src dst h.content_len)))
]
