-- ===== src/Base/Search.antt =====
-- Linear search of an array: the first index whose item passes a test.
use Prim.Native.Nat.{ℕ, zero, suc, ◌<◌}
use mathlib.Core.Path.{◌≡◌, refl, sym, ap, subst}
use mathlib.Core.Logic.{◌≢◌, inl, inr}
use mathlib.Core.Bool.{Bool, true, false}
use mathlib.Core.List.{List, [], ◌∷◌, ◌++◌}
use mathlib.Core.Option
use mathlib.Core.Option.{Option, none, some}
use native.Mathlib.Omega.{arith}
use meshtastic_ble_proxy.Base.Tests.{if◌then◌else◌, ◌==◌, Bool-cases}
use meshtastic_ble_proxy.Base.Lists.{length, get_elem?, get_or, set}

abbrev pub All {ℓ κ} : {A : Type ℓ} → (A → Type κ) → List A → Type κ
All P [] = Unit
All P (x ∷ xs) = P x × All P xs

module _ {ℓ} {A : Type ℓ} where
  abbrev pub find_index? : (A → Bool) → List A → Option ℕ
  find_index? p [] = none
  find_index? p (x ∷ xs) = if p x then some 0 else Option.map suc (find_index? p xs)

  abbrev pub last_index? : (A → Bool) → List A → Option ℕ
  last_index? p [] = none
  last_index? p (x ∷ xs) = elim (last_index? p xs) [
    | none ↦ if p x then some 0 else none
    | some i ↦ some (suc i)
  ]

  -- The last item that passes.
  abbrev pub last? : (A → Bool) → List A → Option A
  last? p [] = none
  last? p (x ∷ xs) = elim (last? p xs) [ none ↦ if p x then some x else none | some y ↦ some y ]

  -- The items that pass, in order.
  abbrev pub select : (A → Bool) → List A → List A
  select p [] = []
  select p (x ∷ xs) = if p x then x ∷ select p xs else select p xs

  abbrev pub count_if : (A → Bool) → List A → ℕ
  count_if p [] = 0
  count_if p (x ∷ xs) = if p x then suc (count_if p xs) else count_if p xs

  -- The array with the item at an index changed in place.
  abbrev pub modify : List A → ℕ → (A → A) → List A
  modify [] i f = []
  modify (x ∷ xs) zero f = f x ∷ xs
  modify (x ∷ xs) (suc i) f = x ∷ modify xs i f

module _ {ℓ} {A : Type ℓ} where
  pub select-append :
      (p : A → Bool) (xs ys : List A) → select p (xs ++ ys) ≡ select p xs ++ select p ys
  select-append p [] ys = refl
  select-append p (x ∷ xs) ys = ground (arith, select-append p xs ys)

  pub find_index?-snoc :
      (p : A → Bool) (xs : List A) (y : A)
      → find_index? p (xs ++ y ∷ []) ≡ elim (find_index? p xs) [
        | none ↦ if p y then some (length xs) else none
        | some i ↦ some i
      ]
  find_index?-snoc p [] y = ground arith
  find_index?-snoc p (x ∷ xs) y = ground (arith, find_index?-snoc p xs y)

  pub last_index?-snoc :
      (p : A → Bool) (xs : List A) (y : A)
      → last_index? p (xs ++ y ∷ []) ≡ (if p y then some (length xs) else last_index? p xs)
  last_index?-snoc p [] y = ground arith
  last_index?-snoc p (x ∷ xs) y = ground (arith, last_index?-snoc p xs y)

  pub last_index?-none : (p : A → Bool) (xs : List A) → last_index? p xs ≡ none → last? p xs ≡ none
  last_index?-none p [] e = refl
  last_index?-none p (x ∷ xs) e = ground (arith, last_index?-none p xs)

  pub last_index?-get_elem? :
      (p : A → Bool) (xs : List A) (i : ℕ)
      → last_index? p xs ≡ some i
      → (x : A) × (i < length xs) × (get_elem? xs i ≡ some x) × (last? p xs ≡ some x)
  last_index?-get_elem? p [] i e = absurd (cc)
  last_index?-get_elem? p (x ∷ xs) zero e =
      (x, omega arith, refl, ground (arith, last_index?-none p xs))
  last_index?-get_elem? p (x ∷ xs) (suc i) e =
      let (y, lt, at, last) = last_index?-get_elem? p xs i (ground arith) in
      (y, omega arith, at, rw last)

  pub find_index?-get_elem? :
      (p : A → Bool) (xs : List A) (i : ℕ)
      → find_index? p xs ≡ some i
      → (x : A) × (get_elem? xs i ≡ some x) × (p x ≡ true)
  find_index?-get_elem? p [] i e = absurd (cc)
  find_index?-get_elem? p (x ∷ xs) zero e = (x, refl, ground arith)
  find_index?-get_elem? p (x ∷ xs) (suc i) e = find_index?-get_elem? p xs i (ground arith)

  -- Where an item passes, the search finds one.
  pub find_index?-found :
      (p : A → Bool) (xs : List A) (i : ℕ) (x : A)
      → get_elem? xs i ≡ some x
      → p x ≡ true
      → (j : ℕ) × (find_index? p xs ≡ some j)
  find_index?-found p [] i x at pass = absurd (cc)
  find_index?-found p (y ∷ ys) zero x at pass =
      let same : y ≡ x = cc in let here : p y ≡ true = rw same pass in (0, rw here refl)
  find_index?-found p (y ∷ ys) (suc i) x at pass = elim (Bool-cases (p y)) [
    | inl here ↦ (0, rw here refl)
    | inr later ↦ let (j, e) = find_index?-found p ys i x at pass in (suc j, rw (later, e) refl)
  ]

  -- The first index that passes: the items before it fail.
  pub find_index?-before :
      (p : A → Bool) (xs : List A) (i j : ℕ) (x : A)
      → find_index? p xs ≡ some i
      → j < i
      → get_elem? xs j ≡ some x
      → p x ≡ false
  find_index?-before p [] i j x e h g = absurd (cc)
  find_index?-before p (y ∷ ys) zero j x e h g = absurd (omega arith)
  find_index?-before p (y ∷ ys) (suc i) zero x e h g = ground arith
  find_index?-before p (y ∷ ys) (suc i) (suc j) x e h g =
      find_index?-before p ys i j x (ground arith) (omega arith) g

  -- A change that the test does not see leaves the index found.
  pub find_index?-modify :
      (p : A → Bool) (xs : List A) (i : ℕ) (f : A → A)
      → ((x : A) → p (f x) ≡ p x)
      → find_index? p (modify xs i f) ≡ find_index? p xs
  find_index?-modify p [] i f keep = refl
  find_index?-modify p (x ∷ xs) zero f keep = rw (keep x)
  find_index?-modify p (x ∷ xs) (suc i) f keep = rw (find_index?-modify p xs i f keep)

  pub All-append {κ} : (P : A → Type κ) (xs ys : List A) → All P xs → All P ys → All P (xs ++ ys)
  All-append P [] ys h k = k
  All-append P (x ∷ xs) ys h k = (h.0, All-append P xs ys h.1 k)

  pub All-get_elem? {κ} :
      (P : A → Type κ) (xs : List A) (i : ℕ) (x : A) → All P xs → get_elem? xs i ≡ some x → P x
  All-get_elem? P [] i x h e = cc
  All-get_elem? P (y ∷ ys) zero x h e = let e' : y ≡ x = cc in subst P e' h.0
  All-get_elem? P (y ∷ ys) (suc i) x h e = All-get_elem? P ys i x h.1 e

  pub All-set {κ} :
      (P : A → Type κ) (xs : List A) (i : ℕ) (v : A) → All P xs → P v → All P (set xs i v)
  All-set P [] i v h k = h
  All-set P (x ∷ xs) zero v h k = (k, h.1)
  All-set P (x ∷ xs) (suc i) v h k = (h.0, All-set P xs i v h.1 k)

  pub All-get_or {κ} :
      (P : A → Type κ) (xs : List A) (i : ℕ) (d : A) → All P xs → P d → P (get_or xs i d)
  All-get_or P [] i d h k = k
  All-get_or P (x ∷ xs) zero d h k = h.0
  All-get_or P (x ∷ xs) (suc i) d h k = All-get_or P xs i d h.1 k

  pub length-modify : (xs : List A) (i : ℕ) (f : A → A) → length (modify xs i f) ≡ length xs
  length-modify [] i f = refl
  length-modify (x ∷ xs) zero f = refl
  length-modify (x ∷ xs) (suc i) f = ap suc (length-modify xs i f)

  pub get_elem?-modify_self :
      (xs : List A) (i : ℕ) (f : A → A)
      → get_elem? (modify xs i f) i ≡ Option.map f (get_elem? xs i)
  get_elem?-modify_self [] i f = refl
  get_elem?-modify_self (x ∷ xs) zero f = refl
  get_elem?-modify_self (x ∷ xs) (suc i) f = get_elem?-modify_self xs i f

  pub get_elem?-modify_ne :
      (xs : List A) (i j : ℕ) (f : A → A) → i ≢ j → get_elem? (modify xs i f) j ≡ get_elem? xs j
  get_elem?-modify_ne [] i j f h = refl
  get_elem?-modify_ne (x ∷ xs) zero zero f h = absurd (h refl)
  get_elem?-modify_ne (x ∷ xs) zero (suc j) f h = refl
  get_elem?-modify_ne (x ∷ xs) (suc i) zero f h = refl
  get_elem?-modify_ne (x ∷ xs) (suc i) (suc j) f h =
      get_elem?-modify_ne xs i j f (λ e. h (ap suc e))

  pub get_elem?-modify :
      (xs : List A) (i j : ℕ) (f : A → A)
      → get_elem? (modify xs i f) j
        ≡ (if i == j then Option.map f (get_elem? xs j) else get_elem? xs j)
  get_elem?-modify [] i j f = ground arith
  get_elem?-modify (x ∷ xs) zero zero f = refl
  get_elem?-modify (x ∷ xs) zero (suc j) f = ground arith
  get_elem?-modify (x ∷ xs) (suc i) zero f = ground arith
  get_elem?-modify (x ∷ xs) (suc i) (suc j) f = ground (arith, get_elem?-modify xs i j f)

  pub modify-append_length :
      (xs : List A) (y : A) (ys : List A) (f : A → A)
      → modify (xs ++ y ∷ ys) (length xs) f ≡ xs ++ f y ∷ ys
  modify-append_length [] y ys f = refl
  modify-append_length (x ∷ xs) y ys f = ap (◌∷◌ x) (modify-append_length xs y ys f)

  -- A change of one item may be told by the item that stands there.
  pub modify-at :
      (xs : List A) (i : ℕ) (f : A → A) (x : A)
      → get_elem? xs i ≡ some x
      → modify xs i (λ _. f x) ≡ modify xs i f
  modify-at [] i f x e = refl
  modify-at (y ∷ ys) zero f x e = let e' : y ≡ x = cc in ap (λ z. f z ∷ ys) (sym e')
  modify-at (y ∷ ys) (suc i) f x e = ap (◌∷◌ y) (modify-at ys i f x e)
