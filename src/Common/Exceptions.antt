-- ===== src/Common/Exceptions.antt =====
-- A computation that returns or raises; each component has its own exceptions `E`.
use mathlib.Core.Path.{◌≡◌, refl}

pub data Outcome {ℓ κ} (E : Type ℓ) (A : Type κ) : Type (ℓ ⊔ κ) where
  ok : A → Outcome E A
  err : E → Outcome E A

module _ {ℓ κ μ} {E : Type ℓ} {A : Type κ} {B : Type μ} where
  infixl 5 ◌>>=◌
  abbrev pub ◌>>=◌ : Outcome E A → (A → Outcome E B) → Outcome E B
  err raised >>= rest = err raised
  ok value >>= rest = rest value

  pub >>=-eq-ok :
      (first : Outcome E A) (rest : A → Outcome E B) {last : B}
      → (first >>= rest) ≡ ok last
      → (value : A) × (first ≡ ok value) × (rest value ≡ ok last)
  >>=-eq-ok (err raised) rest returns = cc
  >>=-eq-ok (ok value) rest returns = (value, refl, returns)

pub Outcome-cases {ℓ κ} :
    {E : Type ℓ} {A : Type κ} (m : Outcome E A) {P : Type 0}
    → ((a : A) → m ≡ ok a → P)
    → ((e : E) → m ≡ err e → P)
    → P
Outcome-cases (ok a) f g = f a refl
Outcome-cases (err e) f g = g e refl
