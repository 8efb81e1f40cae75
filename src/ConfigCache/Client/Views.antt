-- ===== src/ConfigCache/Client/Views.antt =====
-- Caches of src/config_cache.c up to what a client can see: `cache_begin` leaves the bytes and the
-- index entries of an earlier burst.
use mathlib.Core.Quot
use mathlib.Core.Quot.{Quot, Quot-set}
use meshtastic_ble_proxy.Base.{◌≡◌, refl, sym, ap, ◌∙◌, false, List, []}
use meshtastic_ble_proxy.Nanopb.{Tags, HasDistinctTags}
use meshtastic_ble_proxy.ConfigCache.{Cache, cache_at_boot, cache_begin}
use meshtastic_ble_proxy.ConfigCache.Layout.{IsValid, at_boot-IsValid, cache_begin-IsValid}
use meshtastic_ble_proxy.ConfigCache.Frames.{frames}
use meshtastic_ble_proxy.ConfigCache.Client.{CacheCall, CacheAnswer, run, run-Simulates}
use meshtastic_ble_proxy.ConfigCache.Client.Listed.{packed, listed, Listing}
use meshtastic_ble_proxy.ConfigCache.Client.Agreement.{StandsFor, packed-listed}

module _ (tags : Tags) where
  abbrev ValidCache : Type 0
  ValidCache = (c : Cache) × IsValid tags c

  abbrev listing : Cache → Listing
  listing c = record { ready = c.ready; frames = frames c }

  -- The same flag and the same frames.
  abbrev SameView : ValidCache → ValidCache → Type 0
  SameView c d = listing c.0 ≡ listing d.0

  -- Caches up to the bytes and entries that are not in use.
  abbrev View : Type 0
  View = Quot SameView

  abbrev boot_view : View
  boot_view = Quot.mk (cache_at_boot, at_boot-IsValid tags)

  begin_alike : (c : Cache) → listing (cache_begin c) ≡ record { ready = false; frames = [] }
  unfolding cache_begin
  begin_alike c = refl

  at_boot_alike : listing cache_at_boot ≡ record { ready = false; frames = [] }
  unfolding cache_at_boot
  at_boot_alike = refl

  -- A fresh burst, as its clients see it.
  pub begun : View → View
  begun =
      Quot.lift Quot-set (λ c. Quot.mk (cache_begin c.0, cache_begin-IsValid tags c.0 c.1))
        (λ c d h. Quot.sound (begin_alike c.0 ∙ sym (begin_alike d.0)))

  begun_lem : (x : View) → begun x ≡ boot_view
  unfolding begun
  begun_lem = Quot.ind (λ x. Quot-set _ _) (λ c. Quot.sound (begin_alike c.0 ∙ sym at_boot_alike))

  CacheAnswers-set : IsSet (List CacheAnswer)
  CacheAnswers-set = hlevel

  module _ (d : HasDistinctTags tags) where
    run-listing :
        (c : ValidCache) (xs : List CacheCall)
        → run (packed tags) c.0 xs ≡ run (listed tags) (listing c.0) xs
    run-listing c xs =
        run-Simulates (packed tags) (listed tags) (StandsFor tags d) (packed-listed tags d) c.0
          (listing c.0) xs (record { valid = c.1; ready = refl; frames = refl })

    -- The answers of a program of calls depend on the view alone.
    pub observe : List CacheCall → View → List CacheAnswer
    observe xs =
        Quot.lift CacheAnswers-set (λ c. run (packed tags) c.0 xs)
          (λ c e h. run-listing c xs ∙ ap (λ l. run (listed tags) l xs) h ∙ sym (run-listing e xs))

    -- With distinct tags, a cache that begins a fresh burst answers every later program of calls as at
    -- boot, whatever burst it held before: the bytes and index entries that are left from it are never
    -- seen.
    pub observe-begun :
        (c : Cache) (v : IsValid tags c) (xs : List CacheCall)
        → run (packed tags) (cache_begin c) xs ≡ run (packed tags) cache_at_boot xs
    unfolding observe begun
    observe-begun c v xs = ap (observe xs) (begun_lem (Quot.mk (c, v)))
