-- ===== src/Prelude/Results.antt =====
-- Fallible code: a value, or an error of the caller's own type.
use mathlib.Core.Path.{◌≡◌, refl}
use mathlib.Core.Logic.{◌⊎◌, inl, inr}

pub data Result {ℓ κ} (E : Type κ) (A : Type ℓ) : Type (ℓ ⊔ κ) where
  err : (thrown : E) → Result E A
  ok : (value : A) → Result E A

module _ {ι} {E : Type ι} where
  infixl 5 ◌>>=◌ ◌>>◌
  -- An error ends the chain.
  abbrev pub ◌>>=◌ {ℓ κ} : {X : Type ℓ} {Y : Type κ} → Result E X → (X → Result E Y) → Result E Y
  err thrown >>= next = err thrown
  ok x >>= next = next x

  abbrev pub ◌>>◌ {ℓ} : {Y : Type ℓ} → Result E (Unit {0}) → Result E Y → Result E Y
  check >> next = check >>= λ done. next

  pub Result-cases {ℓ} :
      {X : Type ℓ} (r : Result E X) → ((x : X) × (r ≡ ok x)) ⊎ ((e : E) × (r ≡ err e))
  Result-cases (err thrown) = inr (thrown, refl)
  Result-cases (ok x) = inl (x, refl)

  pub >>=-eq-ok {ℓ κ} :
      {X : Type ℓ} {Y : Type κ} (m : Result E X) (next : X → Result E Y) {y : Y}
      → (m >>= next) ≡ ok y
      → (x : X) × (m ≡ ok x) × (next x ≡ ok y)
  >>=-eq-ok (ok x) next h = (x, refl, h)
  >>=-eq-ok (err thrown) next h = cc
