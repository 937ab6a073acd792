-- ===== src/Base/Results.antt =====
-- A call that may raise: the value it returns, or the Python exception that leaves it.
-- `out_of_fuel` stands for none; a loop on fuel ends with it if the fuel does not suffice.
use mathlib.Core.Path.{◌≡◌, refl}

pub data Error : Type 0 where
  key_error assertion_error index_error value_error type_error runtime_error attribute_error
        out_of_fuel :
      Error

pub data Result {ℓ} (A : Type ℓ) : Type ℓ where
  ok : A → Result A
  err : Error → Result A

infixl 5 ◌>>=◌
abbrev pub ◌>>=◌ {ℓ κ} : {A : Type ℓ} {B : Type κ} → Result A → (A → Result B) → Result B
ok a >>= f = f a
err e >>= f = err e

-- A sequence that returns has a first part that returns.
pub >>=-eq-ok {ℓ κ} :
    {A : Type ℓ} {B : Type κ} (r : Result A) (f : A → Result B) {b : B}
    → (r >>= f) ≡ ok b
    → (a : A) × (r ≡ ok a) × (f a ≡ ok b)
>>=-eq-ok (ok a) f h = (a, refl, h)
>>=-eq-ok (err e) f h = cc
