-- ===== src/Cel/Mutator/Errors.antt =====
-- The errors of a mutation that fails.
use mathlib.Core.Path.{subst}
use mathlib.Core.Option.{some-injective}
use tekton_kueue.Base.{
  String, Option, none, some, List, [], ◌∷◌, find, Dict, Error, Result, ok, err, wrap,
  evaluation_error, as_validation_error, ◌≡◌, refl, sym, ◌∙◌, ap, inl, inr, arith, Result-cases,
}
use tekton_kueue.Base.Int.{ℤ}
use tekton_kueue.Base.Decimal.{atoi}
use tekton_kueue.Base.Decimal.RoundTrip.{atoi-error}
use tekton_kueue.Tekton.{PipelineRun}
use tekton_kueue.Cel.Types.{MutationRequest}
use tekton_kueue.Cel.Mutator.{
  Case, resource, case_of, add_existing, resource_sum, store_sum, mutate_case, mutate, apply_all,
}
use tekton_kueue.Cel.Mutator.Apply.{apply_all_cases}

-- No ValidationError can be found in an error of the parts.
abbrev pub IsPlain : Error → Type 0
IsPlain e = as_validation_error e ≡ none

atoi-IsPlain : (s : String) (e : Error) → atoi s ≡ err e → IsPlain e
unfolding as_validation_error
atoi-IsPlain s e h = subst IsPlain (atoi-error s e h) refl

add_existing-IsPlain :
    (k : String) (n : ℤ) (o : Option String) (e : Error) → add_existing k n o ≡ err e → IsPlain e
unfolding add_existing as_validation_error
add_existing-IsPlain k n none e h = cc
add_existing-IsPlain k n (some t) e h = elim (Result-cases (atoi t)) [
  | inl (z, p) ↦ ground arith
  | inr (x, p) ↦ ground (arith, atoi-IsPlain t x p)
]

resource_sum-IsPlain :
    (r : MutationRequest) (m : Option (Dict String)) (e : Error)
    → resource_sum r m ≡ err e
    → IsPlain e
unfolding resource_sum as_validation_error
resource_sum-IsPlain r m e h = elim (Result-cases (atoi r.value)) [
  | inl (z, p) ↦ add_existing-IsPlain r.key z (find m r.key) e (rw (p, resource_sum) at h)
  | inr (x, p) ↦ ground (arith, atoi-IsPlain r.value x p)
]

store_sum-IsPlain :
    (plr : PipelineRun) (k : String) (s : Result ℤ) (e : Error)
    → ((x : Error) → s ≡ err x → IsPlain x)
    → (store_sum plr k s).1 ≡ some e
    → IsPlain e
unfolding store_sum
store_sum-IsPlain plr k (ok n) e plain h = cc
store_sum-IsPlain plr k (err x) e plain h = subst IsPlain (some-injective x e h) (plain x refl)

mutate_case-IsPlain :
    (c : Case) (plr : PipelineRun) (r : MutationRequest) (e : Error)
    → (mutate_case c plr r).1 ≡ some e
    → IsPlain e
unfolding mutate_case
mutate_case-IsPlain resource plr r e h =
    store_sum-IsPlain plr r.key _ e (resource_sum-IsPlain r plr.annotations) h
mutate_case-IsPlain _ plr r e h = cc

-- A loop over the mutations that fails returns an EvaluationError with no ValidationError in it.
pub apply_all-error :
    (plr : PipelineRun) (rs : List MutationRequest) (e : Error)
    → (apply_all plr rs).1 ≡ some e
    → (x : Error) × (e ≡ evaluation_error x) × IsPlain x
unfolding apply_all mutate as_validation_error
apply_all-error plr [] e h = cc
apply_all-error plr (r ∷ rs) e h = elim (apply_all_cases plr r rs) [
  | inl (_, same) ↦ apply_all-error (mutate plr r).0 rs e (rw same at h)
  | inr (x, failed, same) ↦ (
    wrap "failed to apply mutation (type: %s, key: %s): %w" (r.type ∷ r.key ∷ []) x,
    sym (some-injective _ _ (ap (λ (p : PipelineRun × Option Error). p.1) (sym same) ∙ h)),
    mutate_case-IsPlain (case_of r.type) plr r x failed,
  )
]
