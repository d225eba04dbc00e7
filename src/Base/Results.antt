-- ===== src/Base/Results.antt =====
-- Go errors as values, and the `(value, error)` results of fallible calls.
use Prim.Native.String.{String}
use mathlib.Core.Path.{◌≡◌, refl}
use mathlib.Core.Logic.{◌⊎◌, inl, inr}
use mathlib.Core.Bool.{Bool, true, false}
use mathlib.Core.List.{List}
use mathlib.Core.Option.{Option, none, some}

-- A message is kept as its format string with the arguments that are texts; nothing formats them.
pub data Error : Type 0 where
  -- `errors.New`, or `fmt.Errorf` with no `%w`
  errorf : String → List String → Error
  -- `fmt.Errorf` whose format ends in `%w`
  wrap : String → List String → Error → Error
  -- `fmt.Errorf` or `types.NewErr` whose format ends in `%v` of an error: only its text is kept
  errorv : String → List String → Error → Error
  -- `&cel.ValidationError{Err: …}`
  validation_error : Error → Error
  -- `&cel.EvaluationError{Err: …}`
  evaluation_error : Error → Error
  -- `k8serrors.NewBadRequest(err.Error())` and `k8serrors.NewInternalError(err)`
  bad_request : Error → Error
  internal_error : Error → Error
  -- `jobframework.UnretryableError`
  unretryable : String → List String → Error
  -- an error of the API server for a missing object, for which `apierrors.IsNotFound` holds
  not_found : String → Error

pub data Result {ℓ} (A : Type ℓ) : Type ℓ where
  ok : A → Result A
  err : Error → Result A

-- Whether a result has no error.
abbrev pub is_ok {ℓ} : {A : Type ℓ} → Result A → Bool
is_ok (err e) = false
is_ok (ok value) = true

pub Result-cases {ℓ} :
    {A : Type ℓ} (r : Result A) → ((a : A) × (r ≡ ok a)) ⊎ ((e : Error) × (r ≡ err e))
Result-cases (ok a) = inl (a, refl)
Result-cases (err e) = inr (e, refl)

-- `if err != nil { return err }`, and on with the value.
infixl 5 ◌>>=◌
abbrev pub ◌>>=◌ {ℓ κ} : {A : Type ℓ} {B : Type κ} → Result A → (A → Result B) → Result B
err e >>= next = err e
ok value >>= next = next value

pub >>=-eq-ok {ℓ κ} :
    {A : Type ℓ} {B : Type κ} (r : Result A) (next : A → Result B) {done : B}
    → (r >>= next) ≡ ok done
    → (value : A) × (r ≡ ok value) × (next value ≡ ok done)
>>=-eq-ok (err e) next h = cc
>>=-eq-ok (ok value) next h = (value, refl, h)

pub err-ne-ok {ℓ} : {A : Type ℓ} {e : Error} {a : A} → err e ≡ ok a → ⊥
err-ne-ok h = cc

-- `errors.As` with a target of either type: it follows `Unwrap`, and only `%w` can be unwrapped.
unfoldable pub as_validation_error : Error → Option Error
as_validation_error (validation_error e) = some (validation_error e)
as_validation_error (evaluation_error e) = as_validation_error e
as_validation_error (wrap format args e) = as_validation_error e
as_validation_error _ = none

unfoldable pub as_evaluation_error : Error → Option Error
as_evaluation_error (evaluation_error e) = some (evaluation_error e)
as_evaluation_error (validation_error e) = as_evaluation_error e
as_evaluation_error (wrap format args e) = as_evaluation_error e
as_evaluation_error _ = none
