-- ===== src/Base/Lists.antt =====
-- Lists measured by native numbers, and predicates on all or some of their items.
use Prim.Native.Nat.{ℕ, zero, suc, ◌+◌, ◌-◌, ◌≤◌, min}
use mathlib.Core.Path.{◌≡◌, refl, ap}
use mathlib.Core.Logic.{◌⊎◌, inl, inr}
use mathlib.Core.List.{List, [], ◌∷◌, ◌++◌, map}
use mathlib.Core.Option.{Option, none, some}
use native.Mathlib.Omega.{arith}

module _ {ℓ} {A : Type ℓ} where
  abbrev pub length : List A → ℕ
  length [] = 0
  length (x ∷ xs) = suc (length xs)

  abbrev pub get_elem? : List A → ℕ → Option A
  get_elem? [] i = none
  get_elem? (x ∷ xs) zero = some x
  get_elem? (x ∷ xs) (suc i) = get_elem? xs i

  -- A write out of bounds changes nothing.
  abbrev pub set : List A → ℕ → A → List A
  set [] i v = []
  set (x ∷ xs) zero v = v ∷ xs
  set (x ∷ xs) (suc i) v = x ∷ set xs i v

  abbrev pub take : ℕ → List A → List A
  take zero xs = []
  take (suc n) [] = []
  take (suc n) (x ∷ xs) = x ∷ take n xs

  abbrev pub drop : ℕ → List A → List A
  drop zero xs = xs
  drop (suc n) [] = []
  drop (suc n) (x ∷ xs) = drop n xs

  abbrev pub replicate : ℕ → A → List A
  replicate zero a = []
  replicate (suc n) a = a ∷ replicate n a

  abbrev pub last? : List A → Option A
  last? [] = none
  last? (x ∷ []) = some x
  last? (x ∷ y ∷ xs) = last? (y ∷ xs)

  pub length-append : (xs ys : List A) → length (xs ++ ys) ≡ length xs + length ys
  length-append [] ys = omega arith
  length-append (x ∷ xs) ys = omega (arith, length-append xs ys)

  pub length-take : (n : ℕ) (xs : List A) → length (take n xs) ≡ min n (length xs)
  length-take zero xs = omega arith
  length-take (suc n) [] = omega arith
  length-take (suc n) (x ∷ xs) = omega (arith, length-take n xs)

  pub length-drop : (n : ℕ) (xs : List A) → length (drop n xs) ≡ length xs - n
  length-drop zero xs = omega arith
  length-drop (suc n) [] = omega arith
  length-drop (suc n) (x ∷ xs) = omega (arith, length-drop n xs)

  pub take-append-drop : (n : ℕ) (xs : List A) → take n xs ++ drop n xs ≡ xs
  take-append-drop zero xs = refl
  take-append-drop (suc n) [] = refl
  take-append-drop (suc n) (x ∷ xs) = rw (take-append-drop n xs)

  -- Membership with its place kept, so that proofs can match on it.
  pub data In (x : A) : List A → Type ℓ where
    here : {xs : List A} → In x (x ∷ xs)
    there : {y : A} {xs : List A} → In x xs → In x (y ∷ xs)

  pub In-append_left : {x : A} {xs : List A} (ys : List A) → In x xs → In x (xs ++ ys)
  In-append_left ys here = here
  In-append_left ys (there m) = there (In-append_left ys m)

  pub In-append_right : {x : A} (xs : List A) {ys : List A} → In x ys → In x (xs ++ ys)
  In-append_right [] m = m
  In-append_right (y ∷ xs) m = there (In-append_right xs m)

  -- Membership behind a common head.
  pub In-cons : {z x : A} {xs ys : List A} → In z (x ∷ xs) → (In z xs → In z ys) → In z (x ∷ ys)
  In-cons here f = here
  In-cons (there m) f = there (f m)

  pub In-single : {x y : A} → In x (y ∷ []) → x ≡ y
  In-single here = refl
  In-single (there m) = elim m [ ]

  pub In-take : (n : ℕ) (xs : List A) {x : A} → In x (take n xs) → In x xs
  In-take zero xs m = elim m [ ]
  In-take (suc n) [] m = elim m [ ]
  In-take (suc n) (y ∷ xs) m = In-cons m (In-take n xs)

  pub In-drop : (n : ℕ) (xs : List A) {x : A} → In x (drop n xs) → In x xs
  In-drop zero xs m = m
  In-drop (suc n) [] m = m
  In-drop (suc n) (y ∷ xs) m = there (In-drop n xs m)

  -- A slice of a prefix that it lies in.
  pub take-drop-take :
      (n s e : ℕ) (xs : List A) → s + n ≤ e → take n (drop s (take e xs)) ≡ take n (drop s xs)
  take-drop-take zero s e xs h = refl
  take-drop-take (suc n) zero zero xs h = absurd (omega (arith, h))
  take-drop-take (suc n) zero (suc e) [] h = refl
  take-drop-take (suc n) zero (suc e) (x ∷ xs) h =
      ap (λ l. x ∷ l) (take-drop-take n zero e xs (omega (arith, h)))
  take-drop-take (suc n) (suc s) zero xs h = absurd (omega (arith, h))
  take-drop-take (suc n) (suc s) (suc e) [] h = refl
  take-drop-take (suc n) (suc s) (suc e) (x ∷ xs) h =
      take-drop-take (suc n) s e xs (omega (arith, h))

  pub In-swap : {z x y : A} {xs : List A} → In z (x ∷ y ∷ xs) → In z (y ∷ x ∷ xs)
  In-swap here = there here
  In-swap (there here) = here
  In-swap (there (there m)) = there (there m)

  pub In-append : {x : A} (xs ys : List A) → In x (xs ++ ys) → In x xs ⊎ In x ys
  In-append [] ys m = inr m
  In-append (y ∷ xs) ys here = inl here
  In-append (y ∷ xs) ys (there m) = elim (In-append xs ys m) [
    | inl l ↦ inl (there l)
    | inr r ↦ inr r
  ]

module _ {ℓ κ} {A : Type ℓ} where
  abbrev pub All : (A → Type κ) → List A → Type κ
  All P [] = Unit
  All P (x ∷ xs) = P x × All P xs

  pub All-In : (P : A → Type κ) (xs : List A) {x : A} → All P xs → In x xs → P x
  All-In P [] a m = elim m [ ]
  All-In P (y ∷ xs) a here = a.0
  All-In P (y ∷ xs) a (there m) = All-In P xs a.1 m

  pub In-All : (P : A → Type κ) (xs : List A) → ((x : A) → In x xs → P x) → All P xs
  In-All P [] f = tt
  In-All P (x ∷ xs) f = (f x here, In-All P xs (λ y m. f y (there m)))

  pub All-append : (P : A → Type κ) (xs ys : List A) → All P xs → All P ys → All P (xs ++ ys)
  All-append P [] ys a b = b
  All-append P (x ∷ xs) ys a b = (a.0, All-append P xs ys a.1 b)

module _ {ℓ κ} {A : Type ℓ} {B : Type κ} (f : A → B) where
  pub map-take : (n : ℕ) (xs : List A) → take n (map f xs) ≡ map f (take n xs)
  map-take zero xs = refl
  map-take (suc n) [] = refl
  map-take (suc n) (x ∷ xs) = rw (map-take n xs)

  pub map-drop : (n : ℕ) (xs : List A) → drop n (map f xs) ≡ map f (drop n xs)
  map-drop zero xs = refl
  map-drop (suc n) [] = refl
  map-drop (suc n) (x ∷ xs) = map-drop n xs

  pub length-map : (xs : List A) → length (map f xs) ≡ length xs
  length-map [] = refl
  length-map (x ∷ xs) = omega (arith, length-map xs)

  pub In-map : (xs : List A) {y : B} → In y (map f xs) → (x : A) × In x xs × (f x ≡ y)
  In-map [] m = elim m [ ]
  In-map (x ∷ xs) here = (x, here, refl)
  In-map (x ∷ xs) (there m) = let (z, n, e) = In-map xs m in (z, there n, e)

  pub map-In : (xs : List A) {x : A} → In x xs → In (f x) (map f xs)
  map-In [] m = elim m [ ]
  map-In (y ∷ xs) here = here
  map-In (y ∷ xs) (there m) = there (map-In xs m)
