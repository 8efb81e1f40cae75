-- ===== src/Proxy/Parked.antt =====
-- Parked phones and the session's list of them: src/ble_gatt.c, src/upstream_session.c and src/main.c
-- together.
pub mod Node
pub mod Phones
pub mod Served
pub mod Full
mod Tests
use meshtastic_ble_proxy.Base.{
  ℕ, ◌≤◌, ◌≡◌, ◌≢◌, sym, ◌∙◌, Bool, true, false, some, List, [], ◌∷◌, ◌++◌, arith, length,
  length-append, All, ◌⊎◌, inl, inr, if◌then◌else◌,
}
use meshtastic_ble_proxy.Ble.State.{Conn, pending, ProxyConn}
use meshtastic_ble_proxy.Ble.Table.Parked.{IsStable}
use meshtastic_ble_proxy.Upstream.{is_pending, max_pending}
use meshtastic_ble_proxy.Upstream.Waiting.{is_pending-snoc}
use meshtastic_ble_proxy.Proxy.{Proxy}

-- A connection is in the list, or the list is full.
abbrev pub IsListed : Conn → List ℕ → Type 0
IsListed conn cs = (is_pending conn cs ≡ true) ⊎ (max_pending ≤ length cs)

pub IsListed-snoc : (conn c : Conn) (cs : List ℕ) → IsListed conn cs → IsListed conn (cs ++ c ∷ [])
IsListed-snoc conn c cs (inl h) = inl (ground (arith, is_pending-snoc conn cs c))
IsListed-snoc conn c cs (inr h) = inr (omega (arith, length-append cs (c ∷ [])))

-- A slot that is parked holds a listed connection.
abbrev pub Waits : List ℕ → ProxyConn → Type 0
Waits cs pc = (conn : Conn) → pc.conn ≡ some conn → pc.state ≡ pending → IsListed conn cs

pub Waits-IsStable : (cs : List ℕ) → IsStable (Waits cs)
Waits-IsStable cs = record {
  alike = λ pc q same still w conn at st. w conn (sym same ∙ at) (sym still ∙ st);
  others = λ q ne conn at st. absurd (ne st);
}

-- While the cache is not published, every phone that is parked is in the session's list, or the list
-- is full.
abbrev pub Remembers : Proxy → Type 0
Remembers p = p.cache.ready ≡ false → All (Waits p.upstream.pending) p.ble.conns

pub if-Remembers :
    (p q : Proxy) (b : Bool) → Remembers p → Remembers q → Remembers (if b then p else q)
if-Remembers p q true v w = v
if-Remembers p q false v w = w
