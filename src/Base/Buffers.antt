-- ===== src/Base/Buffers.antt =====
-- Byte buffers: `memcpy` into a buffer at an offset, and the bytes at an offset.
use Prim.Native.Nat.{ℕ, zero, suc, ◌+◌, ◌≤◌}
use mathlib.Core.Path.{◌≡◌, refl, ap}
use mathlib.Core.List.{List, [], ◌∷◌, ◌++◌}
use native.Mathlib.Omega.{arith}
use meshtastic_ble_proxy.Base.Lists.{length, take, drop, take-nil}

-- A buffer of bytes. Bytes are moved and compared; where a range matters a theorem says so.
abbrev pub Bytes : Type 0
Bytes = List ℕ

module _ {ℓ} {A : Type ℓ} where
  -- The new items over the old ones; what does not fit is lost.
  abbrev pub overwrite : List A → List A → List A
  overwrite [] src = []
  overwrite (x ∷ xs) [] = x ∷ xs
  overwrite (x ∷ xs) (y ∷ ys) = y ∷ overwrite xs ys

  -- memcpy(&buf[off], src, length src)
  abbrev pub copy_at : List A → ℕ → List A → List A
  copy_at [] off src = []
  copy_at (x ∷ xs) zero src = overwrite (x ∷ xs) src
  copy_at (x ∷ xs) (suc off) src = x ∷ copy_at xs off src

  -- The `n` items at `off`.
  abbrev pub slice : ℕ → ℕ → List A → List A
  slice off n xs = take n (drop off xs)

module _ {ℓ} {A : Type ℓ} where
  length-overwrite : (xs src : List A) → length (overwrite xs src) ≡ length xs
  length-overwrite [] src = refl
  length-overwrite (x ∷ xs) [] = refl
  length-overwrite (x ∷ xs) (y ∷ ys) = ap suc (length-overwrite xs ys)

  pub length-copy_at :
      (xs : List A) (off : ℕ) (src : List A) → length (copy_at xs off src) ≡ length xs
  length-copy_at [] off src = refl
  length-copy_at (x ∷ xs) zero src = length-overwrite (x ∷ xs) src
  length-copy_at (x ∷ xs) (suc off) src = ap suc (length-copy_at xs off src)

  take-overwrite :
      (xs src : List A) → length src ≤ length xs → take (length src) (overwrite xs src) ≡ src
  take-overwrite xs [] h = refl
  take-overwrite [] (y ∷ ys) h = absurd (omega arith)
  take-overwrite (x ∷ xs) (y ∷ ys) h = ap (◌∷◌ y) (take-overwrite xs ys (omega arith))

  drop_past-overwrite :
      (n : ℕ) (xs src : List A) → length src ≤ n → drop n (overwrite xs src) ≡ drop n xs
  drop_past-overwrite n [] src h = refl
  drop_past-overwrite n (x ∷ xs) [] h = refl
  drop_past-overwrite zero (x ∷ xs) (y ∷ ys) h = absurd (omega arith)
  drop_past-overwrite (suc n) (x ∷ xs) (y ∷ ys) h = drop_past-overwrite n xs ys (omega arith)

  -- The copied bytes stand behind those before the offset.
  pub take-copy_at :
      (xs : List A) (off n : ℕ) (src : List A)
      → length src ≡ n
      → off + n ≤ length xs
      → take (off + n) (copy_at xs off src) ≡ take off xs ++ src
  take-copy_at [] off n [] e h = rw (take-nil (off + n), take-nil off)
  take-copy_at [] off n (y ∷ ys) e h = absurd (omega arith)
  take-copy_at (x ∷ xs) zero n src e h =
      let e' : 0 + n ≡ length src = omega arith in rw e' (take-overwrite (x ∷ xs) src (omega arith))
  take-copy_at (x ∷ xs) (suc off) n src e h =
      let e' : suc off + n ≡ suc (off + n) = omega arith in
      rw e' (ap (◌∷◌ x) (take-copy_at xs off n src e (omega arith)))

  -- They read back from there.
  pub slice-copy_at_self :
      (xs : List A) (off : ℕ) (src : List A)
      → off + length src ≤ length xs
      → slice off (length src) (copy_at xs off src) ≡ src
  slice-copy_at_self [] off [] h = refl
  slice-copy_at_self [] off (y ∷ ys) h = absurd (omega arith)
  slice-copy_at_self (x ∷ xs) zero src h = take-overwrite (x ∷ xs) src (omega arith)
  slice-copy_at_self (x ∷ xs) (suc off) src h = slice-copy_at_self xs off src (omega arith)

  -- What stands from a later offset on is left.
  pub drop-copy_at :
      (xs : List A) (off n : ℕ) (src : List A)
      → off + length src ≤ n
      → drop n (copy_at xs off src) ≡ drop n xs
  drop-copy_at [] off n src h = refl
  drop-copy_at (x ∷ xs) zero n src h = drop_past-overwrite n (x ∷ xs) src (omega arith)
  drop-copy_at (x ∷ xs) (suc off) zero src h = absurd (omega arith)
  drop-copy_at (x ∷ xs) (suc off) (suc n) src h = drop-copy_at xs off n src (omega arith)

  -- So is what stands below the offset.
  pub slice-copy_at :
      (xs : List A) (off i n : ℕ) (src : List A)
      → i + n ≤ off
      → slice i n (copy_at xs off src) ≡ slice i n xs
  slice-copy_at [] off i n src h = refl
  slice-copy_at (x ∷ xs) zero i n src h = let e : n ≡ 0 = omega arith in rw e
  slice-copy_at (x ∷ xs) (suc off) zero zero src h = refl
  slice-copy_at (x ∷ xs) (suc off) zero (suc n) src h =
      ap (◌∷◌ x) (slice-copy_at xs off zero n src (omega arith))
  slice-copy_at (x ∷ xs) (suc off) (suc i) n src h = slice-copy_at xs off i n src (omega arith)
