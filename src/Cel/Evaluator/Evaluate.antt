-- ===== src/Cel/Evaluator/Evaluate.antt =====
-- What a call of `Evaluate` returns and counts.
use tekton_kueue.Base.{
  ℕ, suc, String, Option, none, some, List, [], ◌∷◌, Error, Result, ok, err, wrap, validation_error,
  evaluation_error, ◌≡◌, refl, ◌↔◌, ◌⊎◌, inl, inr, arith, Result-cases, Option-cases, All,
}
use tekton_kueue.Tekton.{PipelineRun}
use tekton_kueue.Metrics.{Metrics, record_evaluation_failure, ◌▹◌}
use tekton_kueue.Cel.Types.{validate, MutationRequest}
use tekton_kueue.Cel.Values.{Fields, RefVal, native, Engine}
use tekton_kueue.Cel.Compiler.{CompiledProgram, map_err}
use tekton_kueue.Cel.Evaluator.{
  Json, struct_to_cel_map, evaluation_vars, convert_result, validate_loop, evaluate_map, evaluate,
  none_or_failure, or_failure, convert_to_mutation_requests,
}
use tekton_kueue.Cel.Evaluator.Convert.{Returns, convert_to_mutation_requests_iff}

abbrev pub IsValidRequest : MutationRequest → Type 0
IsValidRequest r = validate r ≡ none

-- The three ways in which a call ends, with its effect on the counters: requests that are all
-- valid; a ValidationError, not counted; an EvaluationError, counted as a failed evaluation.
abbrev pub IsEvaluated : Metrics → Result (List MutationRequest) × Metrics → Type 0
IsEvaluated m (ok rs, m') = (m' ≡ m) × All IsValidRequest rs
IsEvaluated m (err (validation_error e), m') = m' ≡ m
IsEvaluated m (err (evaluation_error e), m') = m' ≡ record_evaluation_failure m
IsEvaluated m (err _, m') = ⊥

-- An EvaluationError, or none.
abbrev IsComplaint : Option Error → Type 0
IsComplaint none = Unit
IsComplaint (some (evaluation_error e)) = Unit
IsComplaint (some _) = ⊥

validate_loop-IsComplaint :
    (s : String) (i : ℕ) (rs : List MutationRequest) → IsComplaint (validate_loop s i rs)
unfolding validate_loop
validate_loop-IsComplaint s i [] = tt
validate_loop-IsComplaint s i (r ∷ rs) = elim (Option-cases (validate r)) [
  | inl e ↦ rw (e, validate_loop) (validate_loop-IsComplaint s (suc i) rs)
  | inr (c, e) ↦ rw (e, validate_loop) tt
]

validate_loop_iff :
    (s : String) (i : ℕ) (rs : List MutationRequest)
    → (validate_loop s i rs ≡ none) ↔ All IsValidRequest rs
unfolding validate_loop
validate_loop_iff s i [] = (λ h. tt, λ h. refl)
validate_loop_iff s i (r ∷ rs) = ground (arith, validate_loop_iff s (suc i) rs)

none_or_failure-IsEvaluated :
    (m : Metrics) (complaint : Option Error) (rs : List MutationRequest)
    → IsComplaint complaint
    → (complaint ≡ none → All IsValidRequest rs)
    → IsEvaluated m (none_or_failure complaint rs m)
none_or_failure-IsEvaluated m none rs c valid = (refl, valid refl)
none_or_failure-IsEvaluated m (some (evaluation_error e)) rs c valid = refl
none_or_failure-IsEvaluated m (some _) rs c valid = absurd c

module _ (E : Engine) (J : Json) where
  converted-IsEvaluated :
      (m : Metrics) (s : String) (f : Error → Error) (converted : Result (List MutationRequest))
      → IsEvaluated m (
          (or_failure (map_err (λ e. evaluation_error (f e)) converted) ▹ λ rs.
          none_or_failure (validate_loop s 0 rs) rs)
            m)
  converted-IsEvaluated m s f (err e) = refl
  converted-IsEvaluated m s f (ok rs) =
      none_or_failure-IsEvaluated m _ rs (validate_loop-IsComplaint s 0 rs)
        (validate_loop_iff s 0 rs).0

  evaluate_map-IsEvaluated :
      (cp : CompiledProgram E) (plr : PipelineRun) (f : Fields) (m : Metrics)
      → IsEvaluated m (evaluate_map E cp plr f m)
  unfolding evaluate_map
  evaluate_map-IsEvaluated cp plr f m = go (E.eval cp.program (evaluation_vars f plr))
    where
      go :
          (r : Result RefVal)
          → IsEvaluated m (
              (or_failure (
                    map_err
                      (λ e.
                        evaluation_error
                          (wrap "failed to evaluate CEL expression %q: %w" (cp.expression ∷ []) e))
                      r)
                  ▹ λ out. or_failure (convert_result E cp out) ▹ λ rs.
                      none_or_failure (validate_loop cp.expression 0 rs) rs)
                m)
      go (err e) = refl
      go (ok out) = converted-IsEvaluated m cp.expression _ (convert_to_mutation_requests out)

  struct_to_cel_map_cases :
      (cp : CompiledProgram E) (plr : PipelineRun) (m : Metrics)
      → ((f : Fields) × (struct_to_cel_map J plr ≡ ok f)
          × (evaluate E J cp (some plr) m ≡ evaluate_map E cp plr f m))
        ⊎ ((e : Error) × (evaluate E J cp (some plr) m ≡ (err (validation_error e), m)))
  unfolding evaluate
  struct_to_cel_map_cases cp plr m = elim (Result-cases (struct_to_cel_map J plr)) [
    | inl (f, e) ↦ inl (f, e, rw (e, evaluate))
    | inr (x, e) ↦ inr (wrap "failed to convert PipelineRun to map: %w" [] x, rw (e, evaluate))
  ]

  -- Every call of `Evaluate` on a PipelineRun ends in one of three ways: it returns requests that
  -- are all valid and counts nothing; it returns a ValidationError and counts nothing; or it
  -- returns an EvaluationError and counts one failed evaluation.
  pub evaluate-IsEvaluated :
      (cp : CompiledProgram E) (plr : PipelineRun) (m : Metrics)
      → IsEvaluated m (evaluate E J cp (some plr) m)
  evaluate-IsEvaluated cp plr m = elim (struct_to_cel_map_cases cp plr m) [
    | inl (f, _, e) ↦ rw e (evaluate_map-IsEvaluated cp plr f m)
    | inr (x, e) ↦ rw e refl
  ]

  evaluate_complete :
      (cp : CompiledProgram E) (plr : PipelineRun) (m : Metrics) (rs : List MutationRequest)
      → ((f : Fields) × (out : RefVal) × (struct_to_cel_map J plr ≡ ok f)
          × (E.eval cp.program (evaluation_vars f plr) ≡ ok out)
          × Returns (native out) rs
          × All IsValidRequest rs)
      → evaluate E J cp (some plr) m ≡ (ok rs, m)
  unfolding evaluate
  evaluate_complete cp plr m rs (f, out, marshalled, ran, returned, valid) = ground (
    arith,
    (convert_to_mutation_requests_iff out rs).1 returned,
    (validate_loop_iff cp.expression 0 rs).1 valid,
  )

  evaluate_map_sound :
      (cp : CompiledProgram E) (plr : PipelineRun) (f : Fields) (m : Metrics)
      (rs : List MutationRequest)
      → evaluate_map E cp plr f m ≡ (ok rs, m)
      → (out : RefVal) × (E.eval cp.program (evaluation_vars f plr) ≡ ok out)
        × (convert_to_mutation_requests out ≡ ok rs)
        × (validate_loop cp.expression 0 rs ≡ none)
  unfolding evaluate_map
  evaluate_map_sound cp plr f m rs h = ground arith

  evaluate_sound :
      (cp : CompiledProgram E) (plr : PipelineRun) (m : Metrics) (rs : List MutationRequest)
      → evaluate E J cp (some plr) m ≡ (ok rs, m)
      → (f : Fields) × (out : RefVal) × (struct_to_cel_map J plr ≡ ok f)
        × (E.eval cp.program (evaluation_vars f plr) ≡ ok out)
        × Returns (native out) rs
        × All IsValidRequest rs
  evaluate_sound cp plr m rs h = elim (struct_to_cel_map_cases cp plr m) [
    | inl (f, marshalled, e) ↦
        let (out, ran, converted, valid) = evaluate_map_sound cp plr f m rs (rw e at h) in
        (
          f,
          out,
          marshalled,
          ran,
          (convert_to_mutation_requests_iff out rs).0 converted,
          (validate_loop_iff cp.expression 0 rs).0 valid,
        )
    | inr (x, e) ↦ absurd (ground arith)
  ]

  -- `Evaluate` returns requests exactly if the PipelineRun converts to a map, the program runs on
  -- it, the requests are what its result describes, and all of them are valid.
  pub evaluate_iff :
      (cp : CompiledProgram E) (plr : PipelineRun) (m : Metrics) (rs : List MutationRequest)
      → (evaluate E J cp (some plr) m ≡ (ok rs, m)) ↔ (
          (f : Fields) × (out : RefVal) × (struct_to_cel_map J plr ≡ ok f)
          × (E.eval cp.program (evaluation_vars f plr) ≡ ok out)
          × Returns (native out) rs
          × All IsValidRequest rs)
  evaluate_iff cp plr m rs = (evaluate_sound cp plr m rs, evaluate_complete cp plr m rs)
