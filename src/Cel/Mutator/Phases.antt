-- ===== src/Cel/Mutator/Phases.antt =====
-- The phases of `Mutate`: validation, evaluation of all programs, and application.
use tekton_kueue.Base.{
  Option, none, some, List, [], ◌∷◌, ◌++◌, Error, Result, ok, err, errorv, validation_error,
  evaluation_error, ◌≡◌, refl, ◌∙◌, ap, inl, inr, Option-cases, All, All-append,
}
use tekton_kueue.Tekton.{PipelineRun}
use tekton_kueue.Metrics.{
  Metrics, Counted, continue, record_evaluation_success, record_evaluation_failure,
  record_mutation_success, record_mutation_failure,
}
use tekton_kueue.Cel.Types.{MutationRequest}
use tekton_kueue.Cel.Values.{Engine}
use tekton_kueue.Cel.Compiler.{CompiledProgram}
use tekton_kueue.Cel.Evaluator.{Json}
use tekton_kueue.Cel.Evaluator.Evaluate.{IsValidRequest, IsEvaluated, evaluate-IsEvaluated}
use tekton_kueue.Cel.Mutator.{
  apply_all, Spec, Outcome, finish, apply_evaluated, evaluate_loop, evaluate_all, mutate_validated,
  mutate_all,
}
use tekton_kueue.Cel.Mutator.Frame.{IsFramed, IsFramed-refl, apply_all-IsFramed}

-- The three ends of `evaluate`; only a run of all programs counts as a success.
abbrev pub IsCollected : Metrics → Result (List MutationRequest) × Metrics → Type 0
IsCollected m (ok rs, m') = (m' ≡ record_evaluation_success m) × All IsValidRequest rs
IsCollected m (err (validation_error e), m') = m' ≡ m
IsCollected m (err (evaluation_error e), m') = m' ≡ record_evaluation_failure m
IsCollected m (err _, m') = ⊥

continue-IsCollected :
    (m : Metrics) (x : Result (List MutationRequest) × Metrics)
    (f : List MutationRequest → Counted (List MutationRequest))
    → IsEvaluated m x
    → ((rs : List MutationRequest) → All IsValidRequest rs → IsCollected m (f rs m))
    → IsCollected m (continue x f)
continue-IsCollected m (ok rs, m') f (same, valid) rest = rw same (rest rs valid)
continue-IsCollected m (err (validation_error e), m') f h rest = h
continue-IsCollected m (err (evaluation_error e), m') f h rest = h
continue-IsCollected m (err _, m') f h rest = absurd h

-- How a call of `Mutate` with programs ends.
module _ (E : Engine) (J : Json) (S : Spec) where
  evaluate_loop-IsCollected :
      (done : List MutationRequest) (ps : List (CompiledProgram E)) (plr : PipelineRun)
      (m : Metrics)
      → All IsValidRequest done
      → IsCollected m (evaluate_loop E J done ps plr m)
  unfolding evaluate_loop
  evaluate_loop-IsCollected done [] plr m valid = (refl, valid)
  evaluate_loop-IsCollected done (p ∷ ps) plr m valid =
      continue-IsCollected m _ _ (evaluate-IsEvaluated E J p plr m) λ rs more.
        evaluate_loop-IsCollected (done ++ rs) ps plr m
          (All-append IsValidRequest done rs valid more)

  -- The copy with Tekton's defaults is valid.
  abbrev pub IsValidSpec : PipelineRun → Type 0
  IsValidSpec plr = S.validate_spec (S.set_defaults plr) ≡ none

  -- The programs were evaluated on the valid copy with defaults, to these requests.
  abbrev pub AreRequests :
      List (CompiledProgram E) → PipelineRun → Metrics → List MutationRequest → Type 0
  AreRequests ps plr m rs =
      (evaluate_all E J ps (S.set_defaults plr) m ≡ (ok rs, record_evaluation_success m))
      × All IsValidRequest rs
      × IsValidSpec plr

  -- The ways in which a call with programs ends, each with its condition.
  pub data IsEnded (ps : List (CompiledProgram E)) (plr : PipelineRun) (m : Metrics) (o : Outcome)
      : Type 0 where
    -- validation refused the copy
    refused :
        (errs : Error)
        → S.validate_spec (S.set_defaults plr) ≡ some errs
        → o ≡ record {
          plr = plr;
          metrics = m;
          error = some (validation_error (errorv "invalid pipelinerun: %v" [] errs));
        }
        → IsEnded ps plr m o
    -- the valid copy could not be marshalled
    not_marshalled :
        (e : Error)
        → IsValidSpec plr
        → evaluate_all E J ps (S.set_defaults plr) m ≡ (err (validation_error e), m)
        → o ≡ record { plr = plr; metrics = m; error = some (validation_error e) }
        → IsEnded ps plr m o
    -- a program failed on the valid copy, or returned no valid requests
    not_evaluated :
        (e : Error)
        → IsValidSpec plr
        → evaluate_all E J ps (S.set_defaults plr) m
          ≡ (err (evaluation_error e), record_evaluation_failure m)
        → o ≡ record {
          plr = plr;
          metrics = record_evaluation_failure m;
          error = some (evaluation_error e);
        }
        → IsEnded ps plr m o
    -- a mutation failed, perhaps behind others that took effect
    not_applied :
        (rs : List MutationRequest) (e : Error)
        → AreRequests ps plr m rs
        → (apply_all plr rs).1 ≡ some e
        → o ≡ record {
          plr = (apply_all plr rs).0;
          metrics = record_mutation_failure (record_evaluation_success m);
          error = some e;
        }
        → IsEnded ps plr m o
    applied :
        (rs : List MutationRequest)
        → AreRequests ps plr m rs
        → (apply_all plr rs).1 ≡ none
        → o ≡ record {
          plr = (apply_all plr rs).0;
          metrics = record_mutation_success (record_evaluation_success m);
          error = none;
        }
        → IsEnded ps plr m o

  finish-IsEnded :
      (ps : List (CompiledProgram E)) (plr : PipelineRun) (m : Metrics) (rs : List MutationRequest)
      (m' : Metrics)
      → AreRequests ps plr m rs
      → m' ≡ record_evaluation_success m
      → (x : PipelineRun × Option Error) → apply_all plr rs ≡ x
      → IsEnded ps plr m (finish m' x)
  unfolding finish
  finish-IsEnded ps plr m rs m' h counted (plr', none) e =
      applied rs h (ap (λ (p : PipelineRun × Option Error). p.1) e) (cc)
  finish-IsEnded ps plr m rs m' h counted (plr', some x) e =
      not_applied rs x h (ap (λ (p : PipelineRun × Option Error). p.1) e) (cc)

  apply_evaluated-IsEnded :
      (ps : List (CompiledProgram E)) (plr : PipelineRun) (m : Metrics)
      (x : Result (List MutationRequest) × Metrics)
      → IsValidSpec plr
      → evaluate_all E J ps (S.set_defaults plr) m ≡ x
      → IsCollected m x
      → IsEnded ps plr m (apply_evaluated plr x)
  unfolding apply_evaluated
  apply_evaluated-IsEnded ps plr m (ok rs, m') spec same (counted, valid) =
      finish-IsEnded ps plr m rs m' (same ∙ ap (λ c. (ok rs, c)) counted, valid, spec) counted
        (apply_all plr rs) refl
  apply_evaluated-IsEnded ps plr m (err (validation_error e), m') spec same h =
      not_marshalled e spec (same ∙ ap (λ c. (err (validation_error e), c)) h) (cc)
  apply_evaluated-IsEnded ps plr m (err (evaluation_error e), m') spec same h =
      not_evaluated e spec (same ∙ ap (λ c. (err (evaluation_error e), c)) h) (cc)
  apply_evaluated-IsEnded ps plr m (err _, m') spec same h = absurd h

  -- With no programs, a call leaves the PipelineRun and counts a success.
  abbrev pub IsEndedFor : List (CompiledProgram E) → PipelineRun → Metrics → Outcome → Type 0
  IsEndedFor [] plr m o =
      o ≡ record { plr = plr; metrics = record_mutation_success m; error = none }
  IsEndedFor (p ∷ ps) plr m o = IsEnded (p ∷ ps) plr m o

  -- With no programs, `Mutate` leaves the PipelineRun untouched and counts a success. Else it ends in
  -- one of five ways: refused, if the copy with defaults does not validate; with a valid copy, not
  -- marshalled or not evaluated, if the evaluation of all programs on the copy ends with such an error;
  -- these leave the PipelineRun untouched. If the evaluation gives requests, not applied, with the
  -- PipelineRun as the loop left it, if the loop fails; or applied. Each way has its own error and its
  -- own effect on the counters.
  pub mutate_all-IsEnded :
      (ps : List (CompiledProgram E)) (plr : PipelineRun) (m : Metrics)
      → IsEndedFor ps plr m (mutate_all E J S ps plr m)
  unfolding mutate_all evaluate_all
  mutate_all-IsEnded [] plr m = refl
  mutate_all-IsEnded (p ∷ ps) plr m = elim (Option-cases (S.validate_spec (S.set_defaults plr))) [
    | inl e ↦
        rw (e, mutate_validated)
          (apply_evaluated-IsEnded (p ∷ ps) plr m _ e refl
            (evaluate_loop-IsCollected [] (p ∷ ps) (S.set_defaults plr) m tt))
    | inr (x, e) ↦ rw (e, mutate_validated) (refused x e refl)
  ]

  -- Whatever the programs and the outcome, `Mutate` changes only labels, annotations and
  -- `managedBy`.
  mutate_all-IsFramed :
      (ps : List (CompiledProgram E)) (plr : PipelineRun) (m : Metrics)
      → IsFramed plr (mutate_all E J S ps plr m).plr
  unfolding mutate_all
  mutate_all-IsFramed [] plr m = IsFramed-refl plr
  mutate_all-IsFramed (p ∷ ps) plr m = elim (mutate_all-IsEnded (p ∷ ps) plr m) [
    | refused e _ same ↦ rw same (IsFramed-refl plr)
    | not_marshalled e _ _ same ↦ rw same (IsFramed-refl plr)
    | not_evaluated e _ _ same ↦ rw same (IsFramed-refl plr)
    | not_applied rs e _ _ same ↦ rw same (apply_all-IsFramed plr rs)
    | applied rs _ _ same ↦ rw same (apply_all-IsFramed plr rs)
  ]
