-- ===== src/Proxy/Phase.antt =====
-- The phases of the session in src/upstream_session.c, src/router.c and src/main.c: how the
-- session's state, the cache's flag, the phones that wait and the keepalive agree.
pub mod Node
pub mod Phones
pub mod Steps
mod Tests
use meshtastic_ble_proxy.Base.{
  ℕ, ◌≡◌, ◌≢◌, Bool, true, false, List, [], arith, if◌then◌else◌, Option, none, some, Bytes, refl,
}
use meshtastic_ble_proxy.ConfigCache.{Cache}
use meshtastic_ble_proxy.Upstream.{
  Upstream, UpstreamState, boot, fetching, cache_ready, live, upstream_keepalive_reschedule,
}
use meshtastic_ble_proxy.Proxy.{Proxy}

-- How the session's state can change: not at all, to the fetch by a start, and from the fetch to
-- live by the burst's end.
pub data Moves : UpstreamState → UpstreamState → Type 0 where
  stays : (st : UpstreamState) → Moves st st
  begins : (st : UpstreamState) → Moves st fetching
  completes : Moves fetching live

-- The transient state is over; a published cache means a live session and no phone that waits; once
-- the session has started its nonce is no special one and its keepalive is armed; and an armed
-- keepalive is scheduled.
pub record IsInPhase (state : UpstreamState) (ready : Bool) (pending : List ℕ) (nonce : ℕ)
    (keepalive_armed keepalive_scheduled : Bool) : Type 0 where
  pub settled : state ≢ cache_ready
  pub published : ready ≡ true → (state ≡ live) × (pending ≡ [])
  pub plain : state ≢ boot → (nonce ≢ 0) × (nonce ≢ 1)
  pub armed : state ≢ boot → keepalive_armed ≡ true
  pub scheduled : keepalive_armed ≡ true → keepalive_scheduled ≡ true

abbrev pub InPhase : Upstream → Cache → Type 0
InPhase u c = IsInPhase u.state c.ready u.pending u.nonce u.keepalive_armed u.keepalive_scheduled

-- In phase, with a state that the one before may have become.
abbrev pub Follows : UpstreamState → Upstream → Cache → Type 0
Follows st u c = InPhase u c × Moves st u.state

abbrev pub Follow : UpstreamState → Proxy → Type 0
Follow st p = Follows st p.upstream p.cache

pub if-Follow :
    (st : UpstreamState) (p q : Proxy) (b : Bool)
    → Follow st p
    → Follow st q
    → Follow st (if b then p else q)
if-Follow st p q true v w = v
if-Follow st p q false v w = w
