-- ===== src/ProxyProtocol/Ids.antt =====
-- The identifier functions of src/proxy_protocol.c.
use meshtastic_ble_proxy.Base.{
  ◌≡◌, refl, true, some, [], ◌∷◌, ◌++◌, arith, length, take, Bytes, replicate, ◌↔◌,
}
use meshtastic_ble_proxy.ProxyProtocol.{
  ProxyId, proxy_id_equal, proxy_id_is_zero, proxy_id_from_str, proxy_id_size,
}

-- Two identifiers compare equal exactly when they are the same four bytes.
pub proxy_id_equal_iff :
    (a b : ProxyId)
    → length a ≡ proxy_id_size
    → length b ≡ proxy_id_size
    → (proxy_id_equal a b ≡ true) ↔ (a ≡ b)
unfolding proxy_id_equal
proxy_id_equal_iff (a ∷ b ∷ c ∷ d ∷ []) (e ∷ f ∷ g ∷ i ∷ []) hs hd =
    (λ h. ground arith, λ h. ground arith)
proxy_id_equal_iff (a ∷ b ∷ c ∷ d ∷ []) _ hs hd = absurd (omega arith)
proxy_id_equal_iff _ b hs hd = absurd (omega arith)

-- The zero test passes exactly on the identifier of four zero bytes.
pub proxy_id_is_zero_iff :
    (a : ProxyId)
    → length a ≡ proxy_id_size
    → (proxy_id_is_zero a ≡ true) ↔ (a ≡ replicate proxy_id_size 0)
unfolding proxy_id_is_zero
proxy_id_is_zero_iff (a ∷ b ∷ c ∷ d ∷ []) h = (λ h. ground arith, λ h. ground arith)
proxy_id_is_zero_iff _ h = absurd (omega arith)

-- An identifier from a string is its first four bytes, padded with zeros: a string of up to four
-- bytes is kept whole, and of a longer one only the first four count.
pub proxy_id_from_str_lem :
    (str : Bytes)
    → (length (proxy_id_from_str (some str)) ≡ proxy_id_size)
      × (proxy_id_from_str (some str) ≡ take proxy_id_size (str ++ replicate proxy_id_size 0))
unfolding proxy_id_from_str
proxy_id_from_str_lem [] = (refl, refl)
proxy_id_from_str_lem (a ∷ []) = (refl, refl)
proxy_id_from_str_lem (a ∷ b ∷ []) = (refl, refl)
proxy_id_from_str_lem (a ∷ b ∷ c ∷ []) = (refl, refl)
proxy_id_from_str_lem (a ∷ b ∷ c ∷ d ∷ rest) = (ground arith, ground arith)
