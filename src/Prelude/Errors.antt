-- ===== src/Prelude/Errors.antt =====
-- Python's exceptions as values.
use mathlib.Core.Path.{◌≡◌, refl}
use mathlib.Core.Option.{Option, none, some}
use mathlib.Core.Bool.{Bool, true, false}

-- `recursion_error` is the model's own fuel. `outside` marks an operand for which the model does
-- not say what Python does.
pub data Error : Type 0 where
  assertion_error attribute_error index_error ingest_error key_error overflow_error stop_iteration
        type_error value_error :
      Error
  recursion_error outside : Error

-- What a call returns or raises.
pub data Result {ℓ} (R : Type ℓ) : Type ℓ where
  err : Error → Result R
  ok : R → Result R

-- The exception of a lookup that finds nothing.
abbrev pub from_option {ℓ} : {R : Type ℓ} → Error → Option R → Result R
from_option raised (some found) = ok found
from_option raised none = err raised

infixl 5 ◌>>=◌
abbrev pub ◌>>=◌ {ℓ κ} : {R : Type ℓ} {S : Type κ} → Result R → (R → Result S) → Result S
err raised >>= rest = err raised
ok returned >>= rest = rest returned

-- What returns has returned at every step.
pub bind_ok {ℓ κ} :
    {R : Type ℓ} {S : Type κ} (r : Result R) (rest : R → Result S) (returned : S)
    → (r >>= rest) ≡ ok returned
    → (x : R) × (r ≡ ok x) × (rest x ≡ ok returned)
bind_ok (err raised) rest returned h = cc h
bind_ok (ok x) rest returned h = (x, refl, h)

pub ok_inj {ℓ} : {A : Type ℓ} (xs ys : A) → ok xs ≡ ok ys → xs ≡ ys
ok_inj xs ys h = cc h

-- Python's `and` of two tests, the second of which is made only if the first holds.
abbrev pub and_also : Result Bool → Result Bool → Result Bool
and_also first second = first >>= λ b. elim b [ true ↦ second | false ↦ ok false ]

pub and_also-intro :
    (first second : Result Bool)
    → first ≡ ok true
    → second ≡ ok true
    → and_also first second ≡ ok true
and_also-intro first second h k = rw (h) k
