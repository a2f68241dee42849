-- ===== src/Prelude/Faults.antt =====
-- Code that can meet undefined behaviour, or end its caller by an exception of its own.
use mathlib.Core.Path.{◌≡◌, refl}

-- `null_string` is `std::string(nullptr, n)` or a view of it, `null_value` a null object that is
-- read, `wild_read` a number of a union that is taken for a pointer, `wild_write` a write
-- behind the end of a buffer, and `division_by_zero` is `% 0`.
pub data Fault : Type 0 where
  null_string null_value division_by_zero wild_read wild_write : Fault

-- A computation ends in a fault, or in its value.
pub data Run {ℓ} (A : Type ℓ) : Type ℓ where
  fault : (cause : Fault) → Run A
  ok : (result : A) → Run A

infixl 5 ◌>>=◌
abbrev pub ◌>>=◌ {ℓ κ} : {A : Type ℓ} {B : Type κ} (run : Run A) (next : A → Run B) → Run B
(fault cause) >>= next = fault cause
(ok result) >>= next = next result

-- The code ends, with no fault, in a value that satisfies `Holds`.
abbrev pub Returns {ℓ κ} : {A : Type ℓ} (run : Run A) (Holds : A → Type κ) → Type (ℓ ⊔ κ)
Returns {A} run Holds = (result : A) × (run ≡ ok result) × Holds result

-- A chain that ends in a value had a value at its first step.
pub >>=-eq-ok {ℓ κ} :
    {A : Type ℓ} {B : Type κ} {out : B} (run : Run A) (next : A → Run B)
    → (run >>= next) ≡ ok out
    → Returns run (λ a. next a ≡ ok out)
>>=-eq-ok (fault cause) next h = cc
>>=-eq-ok (ok result) next h = (result, refl, h)
