-- ===== src/Base/Faults.antt =====
-- What running a piece of C comes to: a value, or a fault. A fault is an access outside of the
-- object that it goes to, a read of what was never written, or a use of freed memory.
use mathlib.Core.Path.{◌≡◌, refl}
use mathlib.Core.Logic.{◌⊎◌, inl, inr}
use mathlib.Core.Option.{Option, none, some}

pub data Exec {ℓ} (A : Type ℓ) : Type ℓ where
  ok : A → Exec A
  fault : Exec A

infixl 5 ◌>>=◌
abbrev pub ◌>>=◌ {ℓ κ} : {A : Type ℓ} {B : Type κ} → Exec A → (A → Exec B) → Exec B
ok a >>= f = f a
fault >>= f = fault

-- A pointer that must be good, such as one that is dereferenced with no test.
abbrev pub or_fault {ℓ} : {A : Type ℓ} → Option A → Exec A
or_fault none = fault
or_fault (some a) = ok a

pub Exec-cases {ℓ} : {A : Type ℓ} (e : Exec A) → (e ≡ fault) ⊎ ((a : A) × (e ≡ ok a))
Exec-cases fault = inl refl
Exec-cases (ok a) = inr (a, refl)
