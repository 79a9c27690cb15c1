-- ===== src/Errors.antt =====
-- Go's `(value, error)` results. A value that comes with an error is dropped: no caller reads it.
use mathlib.Core.Path.{◌≡◌, refl}
use mathlib.Core.Logic.{◌⊎◌, inl, inr}
use mathlib.Core.Bool.{Bool, true, false}
use reflector_go.Prelude.{ℕ, String, Str, bytes}

-- `store.ErrBlobNotFound`, `shared.ErrNotImplemented`, an error that the program makes from a text,
-- and an error that a library, the system or the network reports.
pub data Error : Type 0 where
  blob_not_found not_implemented : Error
  message : Str → Error
  external : ℕ → Error

pub data Result {ℓ} (A : Type ℓ) : Type ℓ where
  ok : A → Result A
  err : Error → Result A

-- `errors.Err("…")`
abbrev pub error_text : String → Error
error_text s = message (bytes s)

-- `errors.Is(err, ErrBlobNotFound)`
abbrev pub is_not_found : Error → Bool
is_not_found blob_not_found = true
is_not_found not_implemented = false
is_not_found (message _) = false
is_not_found (external _) = false

abbrev pub Done : Type 0
Done = Result (Unit {0})

pub Result-cases {ℓ} :
    {A : Type ℓ} (r : Result A) → ((a : A) × (r ≡ ok a)) ⊎ ((e : Error) × (r ≡ err e))
Result-cases (ok a) = inl (a, refl)
Result-cases (err e) = inr (e, refl)

pub is_not_found_lem : (e : Error) → is_not_found e ≡ true → e ≡ blob_not_found
is_not_found_lem blob_not_found h = refl
is_not_found_lem not_implemented h = cc
is_not_found_lem (message _) h = cc
is_not_found_lem (external _) h = cc

-- One error as the results of two types.
pub same_error :
    {A : Type 0} {B : Type 0} {e f : Error}
    → ◌≡◌ {A = Result A} (err e) (err f)
    → ◌≡◌ {A = Result B} (err e) (err f)
same_error p = cc
