-- ===== src/Cel/Mutator.antt =====
-- internal/cel/mutator.go: evaluating all programs and applying their mutations to the PipelineRun.
-- The PipelineRun is mutated in place, so an operation that fails still gives its state.
pub mod Apply
pub mod Frame
pub mod Phases
pub mod Resource
pub mod Errors
pub mod Collect
pub mod Again
use tekton_kueue.Base.{
  String, Bool, true, false, Option, none, some, List, [], ◌∷◌, ◌++◌, ◌==◌, find, assign, Dict,
  Error, errorf, errorv, wrap, validation_error, evaluation_error, Result, ok, err, if◌then◌else◌,
}
use tekton_kueue.Base.Int.{ℤ, add64, is_negative}
use tekton_kueue.Base.Decimal.{itoa, atoi}
use tekton_kueue.Tekton.{PipelineRun, queue_label, managed_by_multi_kueue_label}
use tekton_kueue.Metrics.{
  Metrics, Counted, return, fail, counting, ◌▹◌, record_evaluation_success, record_mutation_success,
  record_mutation_failure,
}
use tekton_kueue.Cel.Types.{
  MutationType, mutation_type_annotation, mutation_type_label, mutation_type_resource,
  mutation_type_managed_by, mutation_type_multi_kueue, MutationRequest,
}
use tekton_kueue.Cel.Values.{Engine}
use tekton_kueue.Cel.Compiler.{CompiledProgram}
use tekton_kueue.Cel.Evaluator.{Json, evaluate}

-- The cases of `switch mutation.Type`; a type of no case does nothing.
pub data Case : Type 0 where
  label annotation resource managed_by multi_kueue no_case : Case

unfoldable pub case_of : MutationType → Case
case_of type =
    if type == mutation_type_label
    then label
    else if type == mutation_type_annotation
    then annotation
    else if type == mutation_type_resource
    then resource
    else if type == mutation_type_managed_by
    then managed_by
    else if type == mutation_type_multi_kueue
    then multi_kueue
    else no_case

-- `make`, if the map is nil.
abbrev made : Option (Dict String) → Option (Dict String)
made none = some []
made (some m) = some m

-- The sum of the parsed value and the value of the key, if the key exists.
add_existing : String → ℤ → Option String → Result ℤ
add_existing key new_value none = ok new_value
add_existing key new_value (some existing_value) = elim (atoi existing_value) [
  | err e ↦ err (
      wrap "failed to parse existing resource value %q as integer for key %q: %w"
        (existing_value ∷ key ∷ []) e)
  | ok existing ↦
      if is_negative existing
      then err (
          errorf "negative resource value %q for key %q is not allowed" (existing_value ∷ key ∷ []))
      else ok (add64 new_value existing)
]

unfoldable pub resource_sum : MutationRequest → Option (Dict String) → Result ℤ
unfolding add_existing
resource_sum mutation annotations = elim (atoi mutation.value) [
  | err e ↦ err (wrap "failed to parse resource value %q as integer: %w" (mutation.value ∷ []) e)
  | ok new_value ↦ add_existing mutation.key new_value (find annotations mutation.key)
]

store_sum : PipelineRun → String → Result ℤ → PipelineRun × Option Error
store_sum plr key (err e) = (record plr { annotations = made plr.annotations }, some e)
store_sum plr key (ok n) = (record plr { annotations = assign plr.annotations key (itoa n) }, none)

route : PipelineRun → String → PipelineRun
route plr value =
    if value == ""
    then record plr { managed_by = some managed_by_multi_kueue_label }
    else record plr {
      managed_by = some managed_by_multi_kueue_label;
      labels = assign plr.labels queue_label value;
    }

mutate_case : Case → PipelineRun → MutationRequest → PipelineRun × Option Error
unfolding store_sum route
mutate_case label plr mutation =
    (record plr { labels = assign plr.labels mutation.key mutation.value }, none)
mutate_case annotation plr mutation =
    (record plr { annotations = assign plr.annotations mutation.key mutation.value }, none)
mutate_case resource plr mutation =
    store_sum plr mutation.key (resource_sum mutation plr.annotations)
mutate_case managed_by plr mutation = (record plr { managed_by = some mutation.value }, none)
mutate_case multi_kueue plr mutation = (route plr mutation.value, none)
mutate_case no_case plr mutation = (plr, none)

-- `mutate`: the PipelineRun as the call leaves it, and the error.
unfoldable pub mutate : PipelineRun → MutationRequest → PipelineRun × Option Error
unfolding mutate_case case_of
mutate plr mutation = mutate_case (case_of mutation.type) plr mutation

-- Goes on with the PipelineRun after a mutation, or returns its error.
abbrev after_mutation :
    MutationRequest
    → PipelineRun × Option Error
    → (PipelineRun → PipelineRun × Option Error)
    → PipelineRun × Option Error
after_mutation mutation (plr, none) next = next plr
after_mutation mutation (plr, some e) next = (
  plr,
  some (
      evaluation_error (
        wrap "failed to apply mutation (type: %s, key: %s): %w" (mutation.type ∷ mutation.key ∷ [])
          e)),
)

-- The loop over the mutations in `Mutate`.
unfoldable pub apply_all : PipelineRun → List MutationRequest → PipelineRun × Option Error
apply_all plr [] = (plr, none)
apply_all plr (mutation ∷ mutations) =
    after_mutation mutation (mutate plr mutation) (λ plr'. apply_all plr' mutations)

-- `Spec.SetDefaults` on a copy, and `Spec.Validate`.
pub record Spec : Type 0 where
  pub set_defaults : PipelineRun → PipelineRun
  pub validate_spec : PipelineRun → Option Error

-- What a call of `Mutate` leaves: the PipelineRun, the counters, the error.
pub record Outcome : Type 0 where
  pub plr : PipelineRun
  pub metrics : Metrics
  pub error : Option Error

-- The end of `Mutate`, behind the loop.
finish : Metrics → PipelineRun × Option Error → Outcome
finish m (plr, none) = record { plr = plr; metrics = record_mutation_success m; error = none }
finish m (plr, some e) = record { plr = plr; metrics = record_mutation_failure m; error = some e }

apply_evaluated : PipelineRun → Result (List MutationRequest) × Metrics → Outcome
unfolding finish
apply_evaluated plr (err e, m) = record { plr = plr; metrics = m; error = some e }
apply_evaluated plr (ok mutations, m) = finish m (apply_all plr mutations)

module _ (E : Engine) (J : Json) where
  -- The loop of `evaluate`, which runs every program before a mutation is applied.
  evaluate_loop :
      List MutationRequest → List (CompiledProgram E) → PipelineRun → Counted (List MutationRequest)
  evaluate_loop all_mutations [] plr = counting record_evaluation_success (return all_mutations)
  evaluate_loop all_mutations (program ∷ programs) plr =
      evaluate E J program (some plr) ▹ λ mutations.
      evaluate_loop (all_mutations ++ mutations) programs plr

  unfoldable pub evaluate_all :
      List (CompiledProgram E) → PipelineRun → Counted (List MutationRequest)
  unfolding evaluate_loop
  evaluate_all programs plr = evaluate_loop [] programs plr

  -- `Mutate` behind the two early returns; defaults and validation go to the copy.
  mutate_validated : Spec → List (CompiledProgram E) → PipelineRun → PipelineRun → Metrics → Outcome
  unfolding apply_evaluated
  mutate_validated S programs copy plr m = elim (S.validate_spec copy) [
    | some errs ↦ record {
      plr = plr;
      metrics = m;
      error = some (validation_error (errorv "invalid pipelinerun: %v" [] errs));
    }
    | none ↦ apply_evaluated plr (evaluate_all programs copy m)
  ]

  -- `CELMutator.Mutate` on a PipelineRun that is not nil.
  unfoldable pub mutate_all : Spec → List (CompiledProgram E) → PipelineRun → Metrics → Outcome
  unfolding mutate_validated
  mutate_all S [] plr m = record { plr = plr; metrics = record_mutation_success m; error = none }
  mutate_all S (p ∷ ps) plr m = mutate_validated S (p ∷ ps) (S.set_defaults plr) plr m

  -- `Mutate` on a pointer that may be nil.
  unfoldable pub mutate_pointer :
      Spec → List (CompiledProgram E) → Option PipelineRun → Metrics → Option Outcome × Option Error
  unfolding mutate_all
  mutate_pointer S programs none m = (none, some (errorf "pipelineRun cannot be nil" []))
  mutate_pointer S programs (some plr) m = let o = mutate_all S programs plr m in (some o, o.error)
