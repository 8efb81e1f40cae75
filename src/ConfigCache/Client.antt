-- ===== src/ConfigCache/Client.antt =====
-- The interface of src/config_cache.h as a client sees it: a store behind its operations, and
-- programs of calls with what they answer.
pub mod Listed
pub mod Agreement
pub mod Views
use meshtastic_ble_proxy.Base.{ℕ, ◌≡◌, refl, ap₂, Bool, Option, List, [], ◌∷◌, Bytes, Rc}
use meshtastic_ble_proxy.ConfigCache.Frames.{Frame}

-- One call, and what it answers.
pub data CacheCall : Type 0 where
  begin mark_ready is_ready frame_count get_queuestatus : CacheCall
  add_frame : (raw : Bytes) → (variant : ℕ) → CacheCall
  read_frame : (idx : ℕ) → CacheCall
  in_segment : (idx nonce : ℕ) → CacheCall

pub data CacheAnswer : Type 0 where
  done : CacheAnswer
  code : Rc → CacheAnswer
  flag : Bool → CacheAnswer
  number : ℕ → CacheAnswer
  frame : Option Frame → CacheAnswer
  queuestatus : Option Bytes → CacheAnswer

-- A store, and its behaviour at each call.
pub record FrameStore : Type 1 where
  pub Store : Type 0
  pub call : CacheCall → Store → CacheAnswer × Store

-- The answers of a program of calls, one after the other.
pub run : (s : FrameStore) → s.Store → List CacheCall → List CacheAnswer
run s c [] = []
run s c (x ∷ xs) = let (answer, d) = s.call x c in answer ∷ run s d xs

-- Related stores answer every call alike and stay related.
pub record Simulates {ℓ} (s t : FrameStore) (R : s.Store → t.Store → Type ℓ) : Type ℓ where
  pub answers :
      (x : CacheCall) (c : s.Store) (d : t.Store) → R c d → (s.call x c).0 ≡ (t.call x d).0
  pub stays : (x : CacheCall) (c : s.Store) (d : t.Store) → R c d → R (s.call x c).1 (t.call x d).1

-- No program tells related stores apart.
pub run-Simulates {ℓ} :
    (s t : FrameStore) (R : s.Store → t.Store → Type ℓ)
    → Simulates s t R
    → (c : s.Store) (d : t.Store) (xs : List CacheCall) → R c d
    → run s c xs ≡ run t d xs
unfolding run
run-Simulates s t R sim c d [] r = refl
run-Simulates s t R sim c d (x ∷ xs) r =
    ap₂ ◌∷◌ (sim.answers x c d r)
      (run-Simulates s t R sim (s.call x c).1 (t.call x d).1 xs (sim.stays x c d r))
