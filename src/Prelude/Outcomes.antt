-- ===== src/Prelude/Outcomes.antt =====
-- Undefined behaviour as a value: what a C++ operation does, or the fault that it runs into.
use mathlib.Core.Path.{◌≡◌, refl}
use mathlib.Core.Logic.{◌⊎◌, inl, inr}

pub data Fault : Type 0 where
  -- an index outside an array
  out_of_bounds : Fault
  -- a write past the end of a character buffer
  buffer_overflow : Fault
  -- a read through a null pointer
  null_dereference : Fault
  -- an iterator moved past `end()`
  past_the_end : Fault
  -- a use of an object that was deleted
  use_after_free : Fault
  -- an exception that nothing catches
  uncaught_exception : Fault

pub data Outcome {ℓ} (A : Type ℓ) : Type ℓ where
  done : A → Outcome A
  fault : Fault → Outcome A

infixl 5 ◌>>=◌
abbrev pub ◌>>=◌ {ℓ κ} : {A : Type ℓ} {B : Type κ} → Outcome A → (A → Outcome B) → Outcome B
done a >>= f = f a
fault e >>= f = fault e

-- Inversion of a bind that ends well.
pub >>=-eq-done {ℓ κ} :
    {A : Type ℓ} {B : Type κ} (m : Outcome A) (f : A → Outcome B) {b : B}
    → (m >>= f) ≡ done b
    → (a : A) × (m ≡ done a) × (f a ≡ done b)
>>=-eq-done (done a) f h = (a, refl, h)
>>=-eq-done (fault e) f h = cc

-- To split on a computed outcome and keep the equation.
pub Outcome-cases {ℓ} :
    {A : Type ℓ} (o : Outcome A) → ((f : Fault) × (o ≡ fault f)) ⊎ ((a : A) × (o ≡ done a))
Outcome-cases (fault f) = inl (f, refl)
Outcome-cases (done a) = inr (a, refl)
