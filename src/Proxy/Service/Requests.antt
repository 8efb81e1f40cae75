-- ===== src/Proxy/Service/Requests.antt =====
-- Every request to every attribute of the service in src/ble_gatt.c.
use mathlib.Core.Option.{some-injective}
use meshtastic_ble_proxy.Base.{
  ℕ, zero, suc, ◌+◌, ◌≡◌, refl, sym, subst, ◌∙◌, Bool, true, false, ◌&&◌, Option, none, some, List,
  [], ◌∷◌, Bytes, if◌then◌else◌, get_elem?, arith, Bool-cases, Option-cases, inl, inr,
}
use meshtastic_ble_proxy.Nanopb.{Nanopb}
use meshtastic_ble_proxy.Ble.State.{Conn}
use meshtastic_ble_proxy.Proxy.{Proxy}
use meshtastic_ble_proxy.Proxy.Service.{
  Uuid, Property, chrc_read, chrc_notify, chrc_write, chrc_write_without_resp, perm_read,
  perm_write, Reader, fromnum, fromradio, logradio, Writer, toradio, node_reg, Entry,
  meshtastic_svc, fromnum_attr_idx, logradio_attr_idx, Attribute, declaration, value, configuration,
  IsExpansion, expanded, Request, read_at, write_at, IsGuard, Outcome, by_stack, handled, reads,
  writes, calls, request, uuid_fromnum, uuid_fromradio, uuid_toradio, uuid_logradio, uuid_node_reg,
}

-- The table's attributes, as src/ble_gatt.c lists them.
abbrev pub attributes : List Attribute
attributes =
    declaration
    ∷ declaration
    ∷ value uuid_fromnum (chrc_read ∷ chrc_notify ∷ []) (perm_read ∷ []) (some fromnum) none
    ∷ configuration (perm_read ∷ perm_write ∷ [])
    ∷ declaration
    ∷ value uuid_fromradio (chrc_read ∷ []) (perm_read ∷ []) (some fromradio) none
    ∷ declaration
    ∷ value uuid_toradio (chrc_write ∷ chrc_write_without_resp ∷ []) (perm_write ∷ []) none
        (some toradio)
    ∷ declaration
    ∷ value uuid_logradio (chrc_read ∷ chrc_notify ∷ []) (perm_read ∷ []) (some logradio) none
    ∷ configuration (perm_read ∷ perm_write ∷ [])
    ∷ declaration
    ∷ value uuid_node_reg (chrc_write ∷ []) (perm_write ∷ []) none (some node_reg)
    ∷ []

expanded-svc :
    (expand : Entry → List Attribute)
    → IsExpansion expand
    → expanded expand meshtastic_svc ≡ attributes
unfolding meshtastic_svc
expanded-svc expand law = simp (law.service, law.both, law.client)

-- Where each handler's value stands.
abbrev pub read_index : Reader → ℕ
read_index fromnum = fromnum_attr_idx
read_index fromradio = 5
read_index logradio = logradio_attr_idx

abbrev pub write_index : Writer → ℕ
write_index toradio = 7
write_index node_reg = 12

abbrev is_value : Attribute → Bool
is_value (value u props perms r w) = true
is_value _ = false

-- What stands at an index.
data Fits : ℕ → Attribute → Type 0 where
  plain : (i : ℕ) (a : Attribute) → is_value a ≡ false → Fits i a
  readable :
      (u : Uuid) (props : List Property) (r : Reader)
      → Fits (read_index r) (value u props (perm_read ∷ []) (some r) none)
  writable :
      (u : Uuid) (props : List Property) (w : Writer)
      → Fits (write_index w) (value u props (perm_write ∷ []) none (some w))

-- The same for a list from an index on.
abbrev FitsFrom : ℕ → List Attribute → Type 0
FitsFrom k [] = Unit
FitsFrom k (a ∷ xs) = Fits k a × FitsFrom (suc k) xs

get_elem?-Fits :
    (k : ℕ) (xs : List Attribute) (i : ℕ) (a : Attribute)
    → FitsFrom k xs
    → get_elem? xs i ≡ some a
    → Fits (i + k) a
get_elem?-Fits k [] i a h e = absurd (ground arith)
get_elem?-Fits k (x ∷ xs) zero a h e =
    let same : x ≡ a = some-injective x a e in
    let here : 0 + k ≡ k = omega arith in rw here (subst (Fits k) same h.0)
get_elem?-Fits k (x ∷ xs) (suc i) a h e =
    let next : i + suc k ≡ suc i + k = omega arith in
    subst (λ j. Fits j a) next (get_elem?-Fits (suc k) xs i a h.1 e)

attributes-Fits : FitsFrom 0 attributes
attributes-Fits = (
  plain 0 _ refl,
  (
    plain 1 _ refl,
    (
      readable uuid_fromnum _ fromnum,
      (
        plain 3 _ refl,
        (
          plain 4 _ refl,
          (
            readable uuid_fromradio _ fromradio,
            (
              plain 6 _ refl,
              (
                writable uuid_toradio _ toradio,
                (
                  plain 8 _ refl,
                  (
                    readable uuid_logradio _ logradio,
                    (plain 10 _ refl, (plain 11 _ refl, (writable uuid_node_reg _ node_reg, tt))),
                  ),
                ),
              ),
            ),
          ),
        ),
      ),
    ),
  ),
)

module _ (pb : Nanopb) (attr_read : Bytes → ℕ → ℕ → Option Bytes)
    (lets : Attribute → Request → Bool) where
  -- Where a request comes to: the stack's own answer, where no value stands or it is not let through,
  -- or the handler whose value stands there.
  pub data Reaches (p : Proxy) (conn : Conn) : ℕ → Request → Outcome → Type 0 where
    stack :
        (i : ℕ) (q : Request)
        → ((a : Attribute) → get_elem? attributes i ≡ some a → is_value a && lets a q ≡ false)
        → Reaches p conn i q by_stack
    reader :
        (r : Reader) (len offset : ℕ)
        → Reaches p conn
            (read_index r)
            (read_at len offset)
            (handled (reads pb attr_read r p conn len offset))
    writer :
        (w : Writer) (buf : Bytes) (offset : ℕ)
        → Reaches p conn
            (write_index w)
            (write_at buf offset)
            (handled (writes pb attr_read w p conn buf offset))

  module _ (guard : IsGuard lets) (p : Proxy) (conn : Conn) where
    unserved :
        (i : ℕ) (q : Request) (a : Attribute)
        → get_elem? attributes i ≡ some a
        → is_value a && lets a q ≡ false
        → Reaches p conn i q by_stack
    unserved i q a e h = stack i q (λ a' e'.
        let same : a ≡ a' = some-injective a a' (sym e ∙ e') in
        subst (λ x. is_value x && lets x q ≡ false) same h)

    let_through :
        (i : ℕ) (q : Request) (a : Attribute)
        → Fits i a
        → get_elem? attributes i ≡ some a
        → lets a q ≡ true
        → Reaches p conn i q (calls pb attr_read a p conn q)
    let_through i q (value u props perms r w) (plain _ _ h) e l = absurd (ground arith)
    let_through i q declaration (plain _ _ h) e l = unserved i q declaration e refl
    let_through i q (configuration perms) (plain _ _ h) e l =
        unserved i q (configuration perms) e refl
    let_through _ (read_at len offset) _ (readable u props r) e l = reader r len offset
    let_through _ (write_at buf offset) _ (readable u props r) e l =
        let no : false ≡ true =
          guard u props (perm_read ∷ []) (some r) none (write_at buf offset) l in
        absurd (ground arith)
    let_through _ (read_at len offset) _ (writable u props w) e l =
        let no : false ≡ true =
          guard u props (perm_write ∷ []) none (some w) (read_at len offset) l in
        absurd (ground arith)
    let_through _ (write_at buf offset) _ (writable u props w) e l = writer w buf offset

    at_attribute :
        (i : ℕ) (q : Request) (a : Attribute)
        → get_elem? attributes i ≡ some a
        → Reaches p conn i q (if lets a q then calls pb attr_read a p conn q else by_stack)
    at_attribute i q a e = elim (Bool-cases (lets a q)) [
      | inl through ↦
          let here : i + 0 ≡ i = omega arith in
          let f = subst (λ j. Fits j a) here (get_elem?-Fits 0 attributes i a attributes-Fits e) in
          rw through (let_through i q a f e through)
      | inr refused ↦ rw refused (unserved i q a e (ground arith))
    ]

    -- With the macros and the permissions as documented, a phone's request to any attribute of the
    -- service, by its index, is answered by the stack alone, which it is only where no value stands or
    -- the stack does not let it through, or it comes to the handler whose value stands there: reads to
    -- FROMNUM at the index that notifications name, to FROMRADIO at 5 and to LOGRADIO at 9, writes to
    -- TORADIO at 7 and to NODE_REG at 12. No entry that is NULL is ever called.
    pub request-Reaches :
        (expand : Entry → List Attribute)
        → IsExpansion expand
        → (i : ℕ) (q : Request)
        → Reaches p conn i q (request pb attr_read lets (expanded expand meshtastic_svc) p conn i q)
    unfolding request
    request-Reaches expand law i q =
        rw (expanded-svc expand law, request)
          (elim (Option-cases (get_elem? attributes i)) [
            | inl e ↦ rw e (stack i q (λ a e'. absurd (ground arith)))
            | inr (a, e) ↦ rw e (at_attribute i q a e)
          ])
