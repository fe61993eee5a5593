-- ===== src/Base/Outcome.antt =====
-- Rust's `Result`, over any error type, with its `?` as `do`.
use mathlib.Core.Path.{◌≡◌, refl}
use mathlib.Core.Logic.{◌⊎◌, inl, inr}

pub data Result {ℓ κ} (A : Type ℓ) (E : Type κ) : Type (ℓ ⊔ κ) where
  ok : A → Result A E
  err : E → Result A E

module _ {ℓ κ μ} {A : Type ℓ} {B : Type κ} {E : Type μ} where
  -- `Result::and_then`
  abbrev pub and_then : (A → Result B E) → Result A E → Result B E
  and_then next (ok x) = next x
  and_then next (err failure) = err failure

  infixl 5 ◌>>=◌
  abbrev pub ◌>>=◌ : Result A E → (A → Result B E) → Result B E
  r >>= next = and_then next r

  -- What a chain that succeeds tells of its first link.
  pub >>=-eq-ok :
      (r : Result A E) (next : A → Result B E) {y : B}
      → (r >>= next) ≡ ok y
      → (x : A) × (r ≡ ok x) × (next x ≡ ok y)
  >>=-eq-ok (err failure) next e = cc
  >>=-eq-ok (ok x) next e = (x, refl, e)

infixl 5 ◌>>◌
abbrev pub ◌>>◌ {κ μ} : {B : Type κ} {E : Type μ} → Result (Unit {0}) E → Result B E → Result B E
r >> next = and_then (λ done. next) r

pub Result-cases {ℓ κ} :
    {A : Type ℓ} {E : Type κ} (r : Result A E) → ((x : A) × (r ≡ ok x)) ⊎ ((e : E) × (r ≡ err e))
Result-cases (err e) = inr (e, refl)
Result-cases (ok x) = inl (x, refl)
