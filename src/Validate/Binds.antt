-- ===== src/Validate/Binds.antt =====
-- Chains of calls that may panic: what a chain that ends well says of its parts, and how a panic
-- gets through.
use jonson.Prelude.{◌≡◌, refl, ap}
use jonson.Errors.{PanicValue}
use jonson.Validate.{Result, ok, panicked, ◌>>=◌}

module _ {ℓ κ} {A : Type ℓ} {B : Type κ} where
  pub bind-eq-ok :
      (r : Result A) (f : A → Result B) (b : B)
      → (r >>= f) ≡ ok b
      → (a : A) × (r ≡ ok a) × (f a ≡ ok b)
  bind-eq-ok (ok a) f b h = (a, refl, h)
  bind-eq-ok (panicked p) f b h = cc

  -- The computation panics.
  pub bind-panics :
      (r : Result A) (f : A → Result B)
      → ((a : A) → (p : PanicValue) × (f a ≡ panicked p))
      → (p : PanicValue) × ((r >>= f) ≡ panicked p)
  bind-panics (ok a) f h = h a
  bind-panics (panicked p) f h = (p, refl)

  pub bind-panicked :
      (r : Result A) (f : A → Result B) (p : PanicValue) → r ≡ panicked p → (r >>= f) ≡ panicked p
  bind-panicked (ok a) f p h = absurd (cc h)
  bind-panicked (panicked q) f p h = ap (λ x. x >>= f) h

abbrev from_ok {ℓ} : {A : Type ℓ} → A → Result A → A
from_ok a (ok b) = b
from_ok a (panicked p) = a

pub ok-injective {ℓ} : {A : Type ℓ} (a b : A) → ok a ≡ ok b → a ≡ b
ok-injective a b h = ap (from_ok a) h
