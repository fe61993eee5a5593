-- ===== src/Base/Sort.antt =====
-- Rust's stable sort, as an insertion sort: every stable sort is the same function.
use mathlib.Core.Path.{◌≡◌}
use mathlib.Core.Logic.{inl, inr}
use mathlib.Core.Bool.{Bool, true, false}
use mathlib.Core.List.{List, [], ◌∷◌}
use walrust.Base.Tests.{if◌then◌else◌, Bool-cases}
use walrust.Base.Lists.{In, here, there, In-cons, In-swap, All, All-In, In-All}

module _ {ℓ} {A : Type ℓ} (leq : A → A → Bool) where
  abbrev pub insert_by : A → List A → List A
  insert_by x [] = x ∷ []
  insert_by x (y ∷ ys) = if leq x y then x ∷ y ∷ ys else y ∷ insert_by x ys

  abbrev pub sort_by : List A → List A
  sort_by [] = []
  sort_by (x ∷ xs) = insert_by x (sort_by xs)

  abbrev pub IsSorted : List A → Type ℓ
  IsSorted [] = Unit
  IsSorted (x ∷ xs) = All (λ y. leq x y ≡ true) xs × IsSorted xs

  pub In-insert_by : (x : A) (ys : List A) {z : A} → In z (insert_by x ys) → In z (x ∷ ys)
  In-insert_by x [] m = m
  In-insert_by x (y ∷ ys) {z} m = elim (Bool-cases (leq x y)) [
    | inl e ↦ rw e at m
    | inr e ↦
        let k : In z (y ∷ insert_by x ys) = rw e at m in In-swap (In-cons k (In-insert_by x ys))
  ]

  pub insert_by-In : (x : A) (ys : List A) {z : A} → In z (x ∷ ys) → In z (insert_by x ys)
  insert_by-In x [] m = m
  insert_by-In x (y ∷ ys) {z} m = elim (Bool-cases (leq x y)) [
    | inl e ↦ rw e m
    | inr e ↦ rw e (In-cons (In-swap m) (insert_by-In x ys))
  ]

  -- Sorting keeps the items.
  pub In-sort_by : (xs : List A) {z : A} → In z (sort_by xs) → In z xs
  In-sort_by [] m = m
  In-sort_by (x ∷ xs) m = In-cons (In-insert_by x (sort_by xs) m) (In-sort_by xs)

  pub sort_by-In : (xs : List A) {z : A} → In z xs → In z (sort_by xs)
  sort_by-In [] m = m
  sort_by-In (x ∷ xs) here = insert_by-In x (sort_by xs) here
  sort_by-In (x ∷ xs) (there m) = insert_by-In x (sort_by xs) (there (sort_by-In xs m))

  module _ (total : (a b : A) → leq a b ≡ false → leq b a ≡ true)
      (trans : (a b c : A) → leq a b ≡ true → leq b c ≡ true → leq a c ≡ true) where
    below :
        (x y : A) (ys : List A)
        → leq y x ≡ true
        → All (λ z. leq y z ≡ true) ys
        → {z : A} → In z (x ∷ ys)
        → leq y z ≡ true
    below x y ys yx a here = yx
    below x y ys yx a (there m) = All-In _ ys a m

    pub insert_by-IsSorted : (x : A) (ys : List A) → IsSorted ys → IsSorted (insert_by x ys)
    insert_by-IsSorted x [] s = (tt, tt)
    insert_by-IsSorted x (y ∷ ys) s = elim (Bool-cases (leq x y)) [
      | inl e ↦ rw e ((e, In-All _ ys (λ z m. trans x y z e (All-In _ ys s.0 m))), s)
      | inr e ↦ rw e (
        In-All _ (insert_by x ys) (λ z m. below x y ys (total x y e) s.0 (In-insert_by x ys m)),
        insert_by-IsSorted x ys s.1,
      )
    ]

    -- The result is in ascending order.
    pub sort_by-IsSorted : (xs : List A) → IsSorted (sort_by xs)
    sort_by-IsSorted [] = tt
    sort_by-IsSorted (x ∷ xs) = insert_by-IsSorted x (sort_by xs) (sort_by-IsSorted xs)
