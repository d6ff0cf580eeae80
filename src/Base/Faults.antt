-- ===== src/Base/Faults.antt =====
-- How a call of the program ends: by its result, or by a fault that nothing in it handles.
use mathlib.Core.Path.{◌≡◌, refl}
use mathlib.Core.Logic.{◌⊎◌, inl, inr}

-- A null or dangling pointer followed, an access outside of a buffer, or an exception that no handler
-- takes.
pub data Fault : Type 0 where
  null_pointer out_of_bounds uncaught : Fault

pub data Outcome {ℓ} (A : Type ℓ) : Type ℓ where
  ok : A → Outcome A
  fault : Fault → Outcome A

infixl 5 ◌>>=◌
abbrev pub ◌>>=◌ {ℓ κ} : {A : Type ℓ} {B : Type κ} → Outcome A → (A → Outcome B) → Outcome B
ok a >>= f = f a
fault e >>= f = fault e

pub Outcome-cases {ℓ} :
    {A : Type ℓ} (m : Outcome A) → ((a : A) × (m ≡ ok a)) ⊎ ((e : Fault) × (m ≡ fault e))
Outcome-cases (ok a) = inl (a, refl)
Outcome-cases (fault e) = inr (e, refl)

module _ {ℓ κ} {A : Type ℓ} {B : Type κ} (next : A → Outcome B) where
  -- A chain of calls that returns has passed through a result of its first call.
  pub first_result :
      {first : Outcome A} {b : B}
      → (first >>= next) ≡ ok b
      → (a : A) × (first ≡ ok a) × (next a ≡ ok b)
  first_result {first = ok a} returns = (a, refl, returns)
  first_result {first = fault e} returns = cc
