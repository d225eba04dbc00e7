-- ===== src/Tests/CelTests.antt =====
-- The theorems on internal/cel at concrete programs, requests and PipelineRuns.
use mathlib.Core.List.{foldl}
use tekton_kueue.Base.{
  ◌+◌, ◌≤◌, String, ◌<>◌, true, false, none, List, [], ◌∷◌, map, find, lookup, ok, eq_iff, ◌≡◌, ◌≢◌,
  refl, sym, err, inr, assign, insert, ◌==◌, false, ◌↔◌, All, arith,
}
use Prim.Native.String.{len}
use tekton_kueue.Base.Int.{add64, ℤ, negsuc, is_negative}
use tekton_kueue.Base.Decimal.{itoa, atoi}
use tekton_kueue.Base.Decimal.RoundTrip.{atoi-itoa}
use tekton_kueue.Metrics.{no_metrics}
use tekton_kueue.Cel.Types.{MutationRequest, is_valid, unmarshal_json, marshal_json}
use tekton_kueue.Cel.Types.Kinds.{IsKind, ReadsBack, no_type, unmarshal_json-marshal_json}
use tekton_kueue.Cel.Values.{val, str, int, native}
use tekton_kueue.Cel.Functions.{
  mutation_map, mutation_binding, resource_binding, priority_binding, managed_by_binding,
  multi_kueue_binding, multi_kueue_zero_binding, max_annotation_value_size,
}
use tekton_kueue.Cel.Functions.Accept.{IsAccepted, HasValue, Always, functions-IsAccepted}
use tekton_kueue.Cel.Compiler.{cel_environment_options, compile_cel_programs}
use tekton_kueue.Cel.Compiler.Laws.{AreCompiled, compile_cel_programs_iff}
use tekton_kueue.Cel.Evaluator.{convert_to_mutation_requests}
use tekton_kueue.Cel.Evaluator.Convert.{Returns, convert_to_mutation_requests_iff}
use tekton_kueue.Cel.Mutator.{mutate, apply_all, mutate_all, resource_sum}
use tekton_kueue.Cel.Mutator.Apply.{
  label_effect, annotation_effect, managed_by_effect, apply_all-effects,
}
use tekton_kueue.Cel.Mutator.Phases.{IsEnded, mutate_all-IsEnded}
use tekton_kueue.Cel.Mutator.Resource.{resource_request, sum, ReadsAs, apply_all-resource}
use tekton_kueue.Cel.Functions.Checks.{IsKey, functions-accept_iff}
use tekton_kueue.Cel.Functions.Replace.{replace_binding}
use tekton_kueue.Cel.Functions.Replace.Leftmost.{Replaces, replace_binding_iff}
use tekton_kueue.Cel.Mutator.{evaluate_all}
use tekton_kueue.Cel.Mutator.Again.{IsPlain, apply_all-apply_all}
use tekton_kueue.Cel.Mutator.Collect.{AreResults, evaluate_all_iff}
use tekton_kueue.Metrics.{record_evaluation_success}
use tekton_kueue.Tests.Toys.{engine, validation, json, spec, program, plr, requests}

mutate_all-IsEnded_example :
    IsEnded engine json spec
      (program ∷ [])
      plr
      no_metrics
      (mutate_all engine json spec (program ∷ []) plr no_metrics)
mutate_all-IsEnded_example = mutate_all-IsEnded engine json spec (program ∷ []) plr no_metrics

requests_apply : (apply_all plr requests).1 ≡ none
unfolding apply_all mutate resource_sum atoi find lookup
requests_apply = refl

apply_all-effects_example :
    (find (apply_all plr requests).0.labels "team"
      ≡ foldl (label_effect "team") (find plr.labels "team") requests)
    × (find (apply_all plr requests).0.annotations "team"
        ≡ foldl (annotation_effect "team") (find plr.annotations "team") requests)
    × ((apply_all plr requests).0.managed_by ≡ foldl managed_by_effect plr.managed_by requests)
apply_all-effects_example = apply_all-effects "team" plr requests requests_apply

abbrev cpu_key : String
cpu_key = "kueue.konflux-ci.dev/requests-cpu"

cpu_read : ReadsAs 2 (find plr.annotations cpu_key)
unfolding find lookup atoi
cpu_read = refl

apply_all-resource_example :
    ((apply_all plr (map (resource_request cpu_key) (3 ∷ 4 ∷ []))).1 ≡ none)
    × ReadsAs
        (2 + sum (3 ∷ 4 ∷ []))
        (find (apply_all plr (map (resource_request cpu_key) (3 ∷ 4 ∷ []))).0.annotations cpu_key)
apply_all-resource_example = apply_all-resource plr cpu_key 2 (3 ∷ 4 ∷ []) (omega arith) cpu_read

functions-IsAccepted_example :
    IsAccepted "annotation" HasValue
      (mutation_binding validation "f" "annotation" (val (str "k")) (val (str "v")))
    × IsAccepted "label" HasValue
        (mutation_binding validation "f" "label" (val (str "k")) (val (str "v")))
    × IsAccepted "resource" Always
        (resource_binding validation "f" "resource" (val (str "k")) (val (str "v")))
    × IsAccepted "label" HasValue (priority_binding "f" (val (str "k")))
    × IsAccepted "managedBy" Always (managed_by_binding "f" (val (str "k")))
    × IsAccepted "multiKueue" Always (multi_kueue_binding validation "f" (val (str "k")))
    × IsAccepted "multiKueue" Always (multi_kueue_zero_binding [])
functions-IsAccepted_example =
    functions-IsAccepted validation "f" (val (str "k")) (val (str "v")) []

functions-accept_iff_example :
    ((value : String)
      → (mutation_binding validation "f" "annotation" (val (str "cpu")) (val (str value))
          ≡ mutation_map "annotation" "cpu" value)
        ↔ (IsKey validation "cpu" × (len value ≤ max_annotation_value_size)))
    × ((value : String)
        → (mutation_binding validation "f" "label" (val (str "cpu")) (val (str value))
            ≡ mutation_map "label" "cpu" value)
          ↔ (IsKey validation "cpu" × (validation.is_valid_label_value value ≡ [])))
    × ((n : ℤ)
        → (resource_binding validation "f" "resource" (val (str "cpu")) (val (int n))
            ≡ mutation_map "resource" ("kueue.konflux-ci.dev/requests-" <> "cpu") (itoa n))
          ↔ (IsKey validation "cpu" × (is_negative n ≡ false)))
functions-accept_iff_example = functions-accept_iff validation "f" "cpu"

evaluate_all_iff_example :
    (evaluate_all engine json (program ∷ []) plr no_metrics ≡ (
      ok (record { type = "label"; key = "team"; value = "a" } ∷ []),
      record_evaluation_success no_metrics,
    ))
    ↔ AreResults engine json plr
        (program ∷ [])
        (record { type = "label"; key = "team"; value = "a" } ∷ [])
evaluate_all_iff_example =
    evaluate_all_iff engine json plr (program ∷ []) no_metrics
      (record { type = "label"; key = "team"; value = "a" } ∷ [])

replace_binding_iff_example :
    (replace_binding "replace" (val (str "a/b/c") ∷ val (str "/") ∷ val (str "--") ∷ [])
      ≡ val (str "a--b--c"))
    ↔ Replaces "/" "--" "a/b/c" "a--b--c"
replace_binding_iff_example =
    replace_binding_iff "/" "--" "replace" "a/b/c" "a--b--c"
      (λ e. let clash : false ≡ true = (eq_iff "/" "").1 e in cc)

compile_cel_programs_iff_example :
    (compile_cel_programs engine validation ("a" ∷ []) ≡ ok (program ∷ [])) ↔ (
      (◌≢◌ {A = List String} ("a" ∷ []) [])
      × ((env : String) × (engine.new_env (cel_environment_options validation) ≡ ok env)
          × AreCompiled engine env ("a" ∷ []) (program ∷ [])))
compile_cel_programs_iff_example =
    compile_cel_programs_iff engine validation ("a" ∷ []) (program ∷ [])

convert_to_mutation_requests_iff_example :
    (convert_to_mutation_requests (mutation_map "label" "team" "a")
      ≡ ok (record { type = "label"; key = "team"; value = "a" } ∷ []))
    ↔ Returns
        (native (mutation_map "label" "team" "a"))
        (record { type = "label"; key = "team"; value = "a" } ∷ [])
convert_to_mutation_requests_iff_example =
    convert_to_mutation_requests_iff (mutation_map "label" "team" "a")
      (record { type = "label"; key = "team"; value = "a" } ∷ [])

abbrev team : List MutationRequest
team = record { type = "label"; key = "team"; value = "a" } ∷ []

once_more : (apply_all (apply_all plr requests).0 requests).1 ≡ none
unfolding apply_all mutate resource_sum atoi itoa find lookup assign insert add64
once_more = refl

note-ne-key : (s : String) → ("note" == s) ≡ false → s ≢ "note"
note-ne-key s h = λ e. ground (arith, eq_iff "note" s)

requests-ArePlain : All (IsPlain "note") requests
requests-ArePlain = (
  inr (note-ne-key "team" refl),
  (
    inr (note-ne-key "kueue.konflux-ci.dev/requests-cpu" refl),
    (inr (note-ne-key "managedBy" refl), tt),
  ),
)

apply_all-apply_all_example :
    let p = (apply_all plr requests).0 in
    let q = (apply_all p requests).0 in
    (find q.labels "team" ≡ find p.labels "team")
    × (q.managed_by ≡ p.managed_by)
    × (find q.annotations "note" ≡ find p.annotations "note")
apply_all-apply_all_example =
    apply_all-apply_all plr requests "team" "note" requests_apply once_more requests-ArePlain

atoi-itoa_example : atoi (itoa (negsuc 41)) ≡ ok (negsuc 41)
atoi-itoa_example = atoi-itoa (negsuc 41) (omega arith)

quoted : ReadsBack ok ok
quoted s t h = sym h

unmarshal_json-marshal_json_example :
    ((t mt : String) → unmarshal_json ok ok t ≡ ok mt → IsKind mt)
    × ((mt t : String)
        → marshal_json ok ok mt ≡ ok t
        → ((unmarshal_json ok ok t ≡ ok mt) ↔ IsKind mt)
          × ((unmarshal_json ok ok t ≡ err (no_type ok ok mt)) ↔ (¬ IsKind mt)))
unmarshal_json-marshal_json_example = unmarshal_json-marshal_json ok ok quoted

json_tests :
    (unmarshal_json ok ok "label" ≡ ok "label")
    × (unmarshal_json ok ok "labels" ≡ err (no_type ok ok "labels"))
unfolding unmarshal_json is_valid
json_tests = (refl, refl)
