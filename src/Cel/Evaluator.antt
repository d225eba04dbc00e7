-- ===== src/Cel/Evaluator.antt =====
-- internal/cel/evaluator.go: running a compiled program on a PipelineRun, and turning what it
-- returns into mutation requests.
pub mod Convert
pub mod Evaluate
use tekton_kueue.Base.{
  ℕ, suc, String, Bool, true, false, Option, none, some, List, [], ◌∷◌, ◌++◌, ◌==◌, find, Dict,
  Error, errorf, wrap, validation_error, evaluation_error, Result, ok, err, ◌>>=◌, if◌then◌else◌,
}
use tekton_kueue.Base.Int.{pos}
use tekton_kueue.Base.Decimal.{itoa}
use tekton_kueue.Tekton.{PipelineRun}
use tekton_kueue.Metrics.{Metrics, Counted, return, fail, counting, ◌▹◌, record_evaluation_failure}
use tekton_kueue.Cel.Types.{MutationType, valid_types, is_valid, MutationRequest, validate}
use tekton_kueue.Cel.Values.{
  Value, str, slice, vals, object, Items, no_items, item, Fields, Vals, no_vals, ref_val, RefVal,
  native, to_list, get_field, Engine,
}
use tekton_kueue.Cel.Functions.{as_string}
use tekton_kueue.Cel.Compiler.{CompiledProgram, map_err}

string_or_err : Error → Option String → Result String
string_or_err e (some s) = ok s
string_or_err e none = err e

value_or_err : Error → Option Value → Result Value
value_or_err e (some v) = ok v
value_or_err e none = err e

unfoldable pub extract_string_field : Fields → String → Result String
unfolding string_or_err value_or_err get_field
extract_string_field map_val field_name = do
  field_val ←
      value_or_err (errorf "missing required '%s' field" (field_name ∷ []))
        (get_field map_val field_name)
  string_or_err (errorf "'%s' field must be a string, got %T" (field_name ∷ []))
      (as_string field_val)

unfoldable pub extract_mutation_type : Fields → Result MutationType
unfolding string_or_err value_or_err get_field is_valid
extract_mutation_type map_val = do
  type_val ← value_or_err (errorf "missing required 'type' field" []) (get_field map_val "type")
  type_str ← string_or_err (errorf "'type' field must be a string, got %T" []) (as_string type_val)
  if is_valid type_str
      then ok type_str
      else err (errorf "invalid mutation type: %q, must be one of: %v" (type_str ∷ valid_types))

-- The part of `convertSingleMutation` behind the type assertion.
convert_map : Fields → Result MutationRequest
convert_map map_val = do
  mutation_type ← extract_mutation_type map_val
  key ← extract_string_field map_val "key"
  if key == "" then err (errorf "'key' field cannot be empty" []) else do
    value ← extract_string_field map_val "value"
    ok (record { type = mutation_type; key = key; value = value })

unfoldable pub convert_single_mutation : Value → Result MutationRequest
unfolding convert_map extract_mutation_type extract_string_field
convert_single_mutation (object map_val) = convert_map map_val
convert_single_mutation v = err (errorf "expected MutationRequest-compatible map, got %T" [])

-- The loop of `convertListToMutations`, at index `i`.
convert_loop : ℕ → List MutationRequest → List Value → Result (List MutationRequest)
convert_loop i mutations [] = ok mutations
convert_loop i mutations (v ∷ vs) = elim (convert_single_mutation v) [
  | err e ↦ err (wrap "failed to convert list item %d: %w" (itoa (pos i) ∷ []) e)
  | ok mutation ↦ convert_loop (suc i) (mutations ++ (mutation ∷ [])) vs
]

unfoldable pub convert_list_to_mutations : List Value → Result (List MutationRequest)
unfolding convert_loop convert_single_mutation
convert_list_to_mutations items = convert_loop 0 [] items

-- `nativeList`
abbrev pub native_list : Vals → List Value
native_list no_vals = []
native_list (ref_val r rs) = native r ∷ native_list rs

unfoldable pub convert_value : Value → Result (List MutationRequest)
unfolding convert_list_to_mutations convert_single_mutation
convert_value (slice items) = convert_list_to_mutations (to_list items)
convert_value (vals rs) = convert_list_to_mutations (native_list rs)
convert_value (object map_val) = do
  mutation ←
      map_err (wrap "failed to convert single mutation: %w" [])
        (convert_single_mutation (object map_val))
  ok (mutation ∷ [])
convert_value v = err (errorf "expected MutationRequest-compatible map or list, got %T" [])

unfoldable pub convert_to_mutation_requests : RefVal → Result (List MutationRequest)
unfolding convert_value
convert_to_mutation_requests result = convert_value (native result)

-- The loop over `mutation.Validate()`, at index `i`: the first complaint.
validate_loop : String → ℕ → List MutationRequest → Option Error
validate_loop expression i [] = none
validate_loop expression i (mutation ∷ mutations) = elim (validate mutation) [
  | some e ↦ some (
      evaluation_error (
        wrap "invalid mutation at index %d for expression %q: %w" (itoa (pos i) ∷ expression ∷ [])
          e))
  | none ↦ validate_loop expression (suc i) mutations
]

-- `encoding/json` on a PipelineRun, and on a map for CEL.
pub record Json : Type 0 where
  pub marshal : PipelineRun → Result String
  pub unmarshal : String → Result Fields

abbrev text_or_empty : Option String → String
text_or_empty none = ""
text_or_empty (some s) = s

-- The four variables of the environment.
pub evaluation_vars : Fields → PipelineRun → Dict Value
unfolding find
evaluation_vars pipeline_run_map plr =
    ("pipelineRun", object pipeline_run_map)
    ∷ ("plrNamespace", str plr.namespace)
    ∷ (
      "pacEventType",
      str (text_or_empty (find plr.labels "pipelinesascode.tekton.dev/event-type")),
    )
    ∷ (
      "pacTestEventType",
      str (text_or_empty (find plr.labels "pac.test.appstudio.openshift.io/event-type")),
    )
    ∷ []

-- Gives `r` on, after `RecordEvaluationFailure` if it is an error.
abbrev or_failure {ℓ} : {A : Type ℓ} → Result A → Counted A
or_failure (ok a) = return a
or_failure (err e) = counting record_evaluation_failure (fail e)

abbrev none_or_failure {ℓ} : {A : Type ℓ} → Option Error → A → Counted A
none_or_failure none a = return a
none_or_failure (some e) a = counting record_evaluation_failure (fail e)

unfoldable pub struct_to_cel_map : Json → PipelineRun → Result Fields
struct_to_cel_map J plr = J.marshal plr >>= J.unmarshal

module _ (E : Engine) where
  -- `cp.program.Eval(vars)`
  eval_program : CompiledProgram E → Fields → PipelineRun → Result RefVal
  unfolding evaluation_vars
  eval_program cp m plr =
      map_err
        (λ e.
          evaluation_error (wrap "failed to evaluate CEL expression %q: %w" (cp.expression ∷ []) e))
        (E.eval cp.program (evaluation_vars m plr))

  convert_result : CompiledProgram E → RefVal → Result (List MutationRequest)
  unfolding convert_to_mutation_requests
  convert_result cp out =
      map_err
        (λ e. evaluation_error (
          wrap "failed to convert result to MutationRequests for expression %q: %w"
            (cp.expression ∷ []) e))
        (convert_to_mutation_requests out)

  -- The steps behind `structToCELMap`.
  evaluate_map : CompiledProgram E → PipelineRun → Fields → Counted (List MutationRequest)
  unfolding eval_program convert_result validate_loop
  evaluate_map cp plr m = or_failure (eval_program cp m plr) ▹ λ out.
      or_failure (convert_result cp out) ▹ λ mutations.
      none_or_failure (validate_loop cp.expression 0 mutations) mutations

  unfoldable pub evaluate :
      Json → CompiledProgram E → Option PipelineRun → Counted (List MutationRequest)
  unfolding evaluate_map struct_to_cel_map
  evaluate J cp none = fail (errorf "pipelineRun cannot be nil" [])
  evaluate J cp (some plr) = elim (struct_to_cel_map J plr) [
    | err e ↦ fail (validation_error (wrap "failed to convert PipelineRun to map: %w" [] e))
    | ok m ↦ evaluate_map cp plr m
  ]
