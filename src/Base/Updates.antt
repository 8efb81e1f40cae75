-- ===== src/Base/Updates.antt =====
-- A changed item of an array: what searches, counts and predicates make of it.
use Prim.Native.Nat.{ℕ, zero, suc, ◌+◌, ◌≤◌}
use mathlib.Core.Path.{◌≡◌, refl}
use mathlib.Core.Bool.{Bool, true}
use mathlib.Core.List.{List, [], ◌∷◌}
use mathlib.Core.Option.{none, some}
use native.Mathlib.Omega.{arith}
use meshtastic_ble_proxy.Base.Tests.{if◌then◌else◌}
use meshtastic_ble_proxy.Base.Lists.{length, get_elem?}
use meshtastic_ble_proxy.Base.Search.{All, find_index?, count_if, modify}

module _ {ℓ} {A : Type ℓ} where
  pub All-modify {κ} :
      (P : A → Type κ) (xs : List A) (i : ℕ) (f : A → A)
      → ((x : A) → get_elem? xs i ≡ some x → P x → P (f x))
      → All P xs
      → All P (modify xs i f)
  All-modify P [] i f keep h = h
  All-modify P (x ∷ xs) zero f keep h = (keep x refl h.0, h.1)
  All-modify P (x ∷ xs) (suc i) f keep h = (h.0, All-modify P xs i f keep h.1)

  -- A search whose test takes the new item as the old one.
  pub find_index?-modify_at :
      (p : A → Bool) (xs : List A) (i : ℕ) (f : A → A) (x : A)
      → get_elem? xs i ≡ some x
      → p (f x) ≡ p x
      → find_index? p (modify xs i f) ≡ find_index? p xs
  find_index?-modify_at p [] i f x at e = refl
  find_index?-modify_at p (y ∷ xs) zero f x at e = let e' : y ≡ x = cc in rw (e', e)
  find_index?-modify_at p (y ∷ xs) (suc i) f x at e = rw (find_index?-modify_at p xs i f x at e)

  -- A search that failed finds an item that is changed to pass.
  pub find_index?-modify_new :
      (p : A → Bool) (xs : List A) (i : ℕ) (f : A → A) (x : A)
      → find_index? p xs ≡ none
      → get_elem? xs i ≡ some x
      → p (f x) ≡ true
      → find_index? p (modify xs i f) ≡ some i
  find_index?-modify_new p [] i f x miss at e = cc
  find_index?-modify_new p (y ∷ xs) zero f x miss at e = let e' : y ≡ x = cc in rw (e', e)
  find_index?-modify_new p (y ∷ xs) (suc i) f x miss at e =
      ground (arith, find_index?-modify_new p xs i f x)

  pub count_if-modify :
      (p : A → Bool) (xs : List A) (i : ℕ) (f : A → A) (x : A)
      → get_elem? xs i ≡ some x
      → count_if p (modify xs i f) + (if p x then 1 else 0)
        ≡ count_if p xs + (if p (f x) then 1 else 0)
  count_if-modify p [] i f x at = cc
  count_if-modify p (y ∷ xs) zero f x at = let e' : y ≡ x = cc in rw e' (ground arith)
  count_if-modify p (y ∷ xs) (suc i) f x at = ground (arith, count_if-modify p xs i f x at)

  pub count_if_max : (p : A → Bool) (xs : List A) → count_if p xs ≤ length xs
  count_if_max p [] = omega arith
  count_if_max p (x ∷ xs) = ground (arith, count_if_max p xs)
