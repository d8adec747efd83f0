-- ===== src/Prelude/Results.antt =====
-- Results of fallible code: a value, or an error.
use mathlib.Core.Path.{◌≡◌, refl}
use mathlib.Core.Logic.{◌⊎◌, inl, inr}
use mathlib.Core.Bool.{Bool, true, false}

pub data Result (E A : Type 0) : Type 0 where
  ok : A → Result E A
  err : E → Result E A

abbrev pub is_ok : {E A : Type 0} → Result E A → Bool
is_ok (ok a) = true
is_ok (err e) = false

-- `fmt.Errorf("…: %w", err)`: the error with its context.
abbrev pub wrap_err : {E F A : Type 0} → (E → F) → Result E A → Result F A
wrap_err f (ok a) = ok a
wrap_err f (err e) = err (f e)

pub Result-cases :
    {E A : Type 0} (r : Result E A) → ((a : A) × (r ≡ ok a)) ⊎ ((e : E) × (r ≡ err e))
Result-cases (ok a) = inl (a, refl)
Result-cases (err e) = inr (e, refl)
