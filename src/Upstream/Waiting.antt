-- ===== src/Upstream/Waiting.antt =====
-- The phones that wait for the burst's end in src/upstream_session.c.
use meshtastic_ble_proxy.Base.{
  ℕ, ◌≤◌, ◌≡◌, refl, arith, true, false, ◌||◌, ◌==◌, if◌then◌else◌, List, [], ◌∷◌, ◌++◌, length,
  length-append, ◌⊎◌, inl, inr, Bool-cases, ==_refl,
}
use meshtastic_ble_proxy.ConfigCache.{Cache}
use meshtastic_ble_proxy.Upstream.{
  Upstream, upstream_on_pending_phone, is_pending, max_pending, serve_one_pending,
}

-- No connection waits twice.
abbrev pub IsOnce : List ℕ → Type 0
IsOnce [] = Unit
IsOnce (c ∷ cs) = (is_pending c cs ≡ false) × IsOnce cs

pub is_pending-snoc :
    (conn : ℕ) (cs : List ℕ) (c : ℕ)
    → is_pending conn (cs ++ c ∷ []) ≡ (is_pending conn cs || (c == conn))
unfolding is_pending
is_pending-snoc conn [] c = ground arith
is_pending-snoc conn (x ∷ cs) c = ground (arith, is_pending-snoc conn cs c)

pub IsOnce-snoc :
    (cs : List ℕ) (c : ℕ) → IsOnce cs → is_pending c cs ≡ false → IsOnce (cs ++ c ∷ [])
unfolding is_pending
IsOnce-snoc [] c h e = (refl, tt)
IsOnce-snoc (x ∷ cs) c h e =
    (ground (arith, is_pending-snoc x cs c, h.0), IsOnce-snoc cs c h.1 (ground arith))

-- However phones ask, at most six wait, none twice, and those that wait keep their places. A phone
-- that asks before the cache is ready waits afterwards, unless six others do; once the cache is ready
-- it is served at once, if a callback is registered, and the list stays as it is.
pub pending_phone-IsOnce :
    {S : Type 0} (serve : ℕ → ℕ → S → S) (cache : Cache) (u : Upstream) (conn : ℕ) (s : S)
    → IsOnce u.pending
    → length u.pending ≤ max_pending
    → let (u', s') = upstream_on_pending_phone serve cache u conn s in
      IsOnce u'.pending
      × (length u'.pending ≤ max_pending)
      × ((u'.pending ≡ u.pending) ⊎ (u'.pending ≡ u.pending ++ conn ∷ []))
      × (((cache.ready ≡ false)
            × (s' ≡ s)
            × ((is_pending conn u'.pending ≡ true) ⊎ (length u.pending ≡ max_pending)))
          ⊎ ((cache.ready ≡ true) × (u' ≡ u) × (s' ≡ (if u.serve_cb then serve conn 0 s else s))))
unfolding upstream_on_pending_phone serve_one_pending
pending_phone-IsOnce serve cache u conn s once le = (
  stays_once,
  ground (arith, length-append u.pending (conn ∷ [])),
  ground arith,
  elim (Bool-cases cache.ready) [
    | inl r ↦ inr (r, ground arith, ground arith)
    | inr r ↦
        inl (r, ground arith, ground (arith, is_pending-snoc conn u.pending conn, ==_refl conn))
  ],
)
  where
    stays_once : IsOnce (upstream_on_pending_phone serve cache u conn s).0.pending
    stays_once = ground (arith, IsOnce-snoc u.pending conn)
