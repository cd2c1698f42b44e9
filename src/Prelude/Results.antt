-- ===== src/Prelude/Results.antt =====
-- What a Python call gives: a value, or the exception that it raises. `running` is no Python
-- value: a loop of the model that takes fuel has used it up.
use mathlib.Core.Path.{◌≡◌, refl}

pub data Exception : Type 0 where
  index_error value_error attribute_error assertion_error type_error bad_signature : Exception

pub data Result {ℓ} (A : Type ℓ) : Type ℓ where
  ok : A → Result A
  raised : Exception → Result A
  running : Result A

infixl 5 ◌>>=◌
abbrev pub ◌>>=◌ {ℓ κ} : {A : Type ℓ} {B : Type κ} → Result A → (A → Result B) → Result B
raised x >>= next = raised x
running >>= next = running
ok value >>= next = next value

-- A bind that gives a value has run both parts.
pub bind-ok {ℓ κ} :
    {A : Type ℓ} {B : Type κ} {result : B} (first : Result A) (next : A → Result B)
    → (first >>= next) ≡ ok result
    → (value : A) × (first ≡ ok value) × (next value ≡ ok result)
bind-ok (raised x) next e = cc
bind-ok running next e = cc
bind-ok (ok value) next e = (value, refl, e)

pub ok-injective {ℓ} : {A : Type ℓ} (x y : A) → ok x ≡ ok y → x ≡ y
ok-injective x y e = cc
