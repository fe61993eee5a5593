-- ===== src/Base/Filters.antt =====
-- Rust's iterator adaptors over lists: `filter`, `any`, `max_by_key`, `min_by_key`, and the
-- stable sort.
use Prim.Native.Nat.{ℕ, ◌≤◌}
use mathlib.Core.Path.{◌≡◌, refl, subst}
use mathlib.Core.Logic.{◌⊎◌, inl, inr}
use mathlib.Core.Bool.{Bool, true, false}
use mathlib.Core.List.{List, [], ◌∷◌, ◌++◌, map}
use mathlib.Core.Option.{Option, none, some}
use native.Mathlib.Omega.{arith}
use walrust.Base.Tests.{ltb, if◌then◌else◌, Bool-cases, Option-cases}
use walrust.Base.Lists.{In, here, there}

module _ {ℓ} {A : Type ℓ} where
  abbrev pub filter : (A → Bool) → List A → List A
  filter p [] = []
  filter p (x ∷ xs) = if p x then x ∷ filter p xs else filter p xs

  abbrev pub any : (A → Bool) → List A → Bool
  any p [] = false
  any p (x ∷ xs) = if p x then true else any p xs

  abbrev pub all : (A → Bool) → List A → Bool
  all p [] = true
  all p (x ∷ xs) = if p x then all p xs else false

  -- Of several greatest items `max_by_key` returns the last.
  abbrev pub max_by_key : (A → ℕ) → List A → Option A
  max_by_key f [] = none
  max_by_key f (x ∷ xs) = elim (max_by_key f xs) [
    | none ↦ some x
    | some y ↦ if ltb (f y) (f x) then some x else some y
  ]

  -- Of several least items `min_by_key` returns the first.
  abbrev pub min_by_key : (A → ℕ) → List A → Option A
  min_by_key f [] = none
  min_by_key f (x ∷ xs) = elim (min_by_key f xs) [
    | none ↦ some x
    | some y ↦ if ltb (f y) (f x) then some y else some x
  ]

  In-if :
      (b : Bool) {x y : A} {ys zs : List A}
      → (In x ys → In x zs)
      → In x (if b then y ∷ ys else ys)
      → In x (y ∷ zs)
  In-if true f here = here
  In-if true f (there m) = there (f m)
  In-if false f m = there (f m)

  -- What a filter keeps is in the list.
  pub In-filter : (p : A → Bool) (xs : List A) {x : A} → In x (filter p xs) → In x xs
  In-filter p [] m = m
  In-filter p (y ∷ xs) m = In-if (p y) (In-filter p xs) m

  test-if :
      (p : A → Bool) (b : Bool) {x y : A} {ys : List A}
      → p y ≡ b
      → (In x ys → p x ≡ true)
      → In x (if b then y ∷ ys else ys)
      → p x ≡ true
  test-if p true e f here = e
  test-if p true e f (there m) = f m
  test-if p false e f m = f m

  -- What a filter keeps passes its test.
  pub test-filter : (p : A → Bool) (xs : List A) {x : A} → In x (filter p xs) → p x ≡ true
  test-filter p [] m = elim m [ ]
  test-filter p (y ∷ xs) m = test-if p (p y) refl (test-filter p xs) m

  kept-if :
      (p : A → Bool) (b : Bool) {x : A} {xs ys : List A} (y : A)
      → p y ≡ b
      → In x (y ∷ xs)
      → (In x xs → In x ys)
      → p x ≡ true
      → In x (if b then y ∷ ys else ys)
  kept-if p true y e here f h = here
  kept-if p true y e (there m) f h = there (f m)
  kept-if p false y e here f h = cc
  kept-if p false y e (there m) f h = f m

  -- What passes the test is kept.
  pub filter-In : (p : A → Bool) (xs : List A) {x : A} → In x xs → p x ≡ true → In x (filter p xs)
  filter-In p [] m h = elim m [ ]
  filter-In p (y ∷ xs) here h = kept-if p (p y) {xs = xs} y refl here (λ k. filter-In p xs k h) h
  filter-In p (y ∷ xs) (there m) h =
      kept-if p (p y) {xs = xs} y refl (there m) (λ k. filter-In p xs k h) h

  pub any-In : (p : A → Bool) (xs : List A) {x : A} → In x xs → p x ≡ true → any p xs ≡ true
  any-In p [] m h = elim m [ ]
  any-In p (y ∷ xs) here h = ground arith
  any-In p (y ∷ xs) (there m) h = ground (arith, any-In p xs m h)

module _ {ℓ} {A : Type ℓ} (f : A → ℕ) where
  max-cons :
      (x : A) (xs : List A) {y : A}
      → max_by_key f (x ∷ xs) ≡ some y
      → (x ≡ y) ⊎ (max_by_key f xs ≡ some y)
  max-cons x xs h = ground arith

  -- The item that `max_by_key` returns is in the list.
  pub max_by_key-In : (xs : List A) {y : A} → max_by_key f xs ≡ some y → In y xs
  max_by_key-In [] h = cc
  max_by_key-In (x ∷ xs) {y} h = elim (max-cons x xs h) [
    | inl e ↦ subst (λ z. In z (x ∷ xs)) e here
    | inr k ↦ there (max_by_key-In xs k)
  ]

  -- Only the empty list has no greatest item.
  pub max_by_key-none : (xs : List A) {x : A} → max_by_key f xs ≡ none → In x xs → ⊥
  max_by_key-none [] h m = elim m [ ]
  max_by_key-none (x ∷ xs) h m = ground arith

  -- No item has a key greater than its key.
  pub le-max_by_key : (xs : List A) {x y : A} → max_by_key f xs ≡ some y → In x xs → f x ≤ f y
  le-max_by_key [] h m = elim m [ ]
  le-max_by_key (x ∷ xs) h here = ground arith
  le-max_by_key (z ∷ xs) {x} {y} h (there m) = elim (Option-cases (max_by_key f xs)) [
    | inl e ↦ absurd (max_by_key-none xs e m)
    | inr (w, e) ↦ ground (arith, le-max_by_key xs e m)
  ]

  min-cons :
      (x : A) (xs : List A) {y : A}
      → min_by_key f (x ∷ xs) ≡ some y
      → (x ≡ y) ⊎ (min_by_key f xs ≡ some y)
  min-cons x xs h = ground arith

  -- The item that `min_by_key` returns is in the list.
  pub min_by_key-In : (xs : List A) {y : A} → min_by_key f xs ≡ some y → In y xs
  min_by_key-In [] h = cc
  min_by_key-In (x ∷ xs) {y} h = elim (min-cons x xs h) [
    | inl e ↦ subst (λ z. In z (x ∷ xs)) e here
    | inr k ↦ there (min_by_key-In xs k)
  ]

  pub min_by_key-none : (xs : List A) {x : A} → min_by_key f xs ≡ none → In x xs → ⊥
  min_by_key-none [] h m = elim m [ ]
  min_by_key-none (x ∷ xs) h m = ground arith

  -- No item has a key less than its key.
  pub min_by_key-le : (xs : List A) {x y : A} → min_by_key f xs ≡ some y → In x xs → f y ≤ f x
  min_by_key-le [] h m = elim m [ ]
  min_by_key-le (x ∷ xs) h here = ground arith
  min_by_key-le (z ∷ xs) h (there m) = elim (Option-cases (min_by_key f xs)) [
    | inl e ↦ absurd (min_by_key-none xs e m)
    | inr (w, e) ↦ ground (arith, min_by_key-le xs e m)
  ]

-- A filter before a stronger filter changes nothing.
pub filter-filter {ℓ} :
    {A : Type ℓ} (p q : A → Bool) (xs : List A)
    → ((x : A) → In x xs → p x ≡ true → q x ≡ true)
    → filter p (filter q xs) ≡ filter p xs
filter-filter p q [] h = refl
filter-filter p q (x ∷ xs) h = ground (arith, h x here, filter-filter p q xs (λ y m. h y (there m)))

pub filter-append {ℓ} :
    {A : Type ℓ} (p : A → Bool) (xs ys : List A) → filter p (xs ++ ys) ≡ filter p xs ++ filter p ys
filter-append p [] ys = refl
filter-append p (x ∷ xs) ys = ground (arith, filter-append p xs ys)

pub filter-map {ℓ κ} :
    {A : Type ℓ} {B : Type κ} (p : B → Bool) (f : A → B) (xs : List A)
    → filter p (map f xs) ≡ map f (filter (λ x. p (f x)) xs)
filter-map p f [] = refl
filter-map p f (x ∷ xs) = ground (arith, filter-map p f xs)

-- An `any` that holds is witnessed.
pub any_sound {ℓ} :
    {A : Type ℓ} (p : A → Bool) (xs : List A) → any p xs ≡ true → (x : A) × In x xs × (p x ≡ true)
any_sound p [] h = cc
any_sound p (x ∷ xs) h = elim (Bool-cases (p x)) [
  | inl e ↦ (x, here, e)
  | inr e ↦ let r = any_sound p xs (rw e at h) in (r.0, there r.1, r.2)
]
