-- ===== src/Cel/Mutator/Collect.antt =====
-- The evaluation of all programs: the requests of each, one after the other.
use mathlib.Core.List.{append_assoc, append-nil}
use mathlib.Core.Path.{subst}
use tekton_kueue.Base.{
  some, List, [], ◌∷◌, ◌++◌, Result, ok, err, err-ne-ok, ◌≡◌, refl, sym, ap, ◌∙◌, ◌↔◌, All,
}
use tekton_kueue.Tekton.{PipelineRun}
use tekton_kueue.Metrics.{Metrics, Counted, continue, record_evaluation_success}
use tekton_kueue.Cel.Types.{MutationRequest}
use tekton_kueue.Cel.Values.{Engine, Fields, RefVal, native}
use tekton_kueue.Cel.Compiler.{CompiledProgram}
use tekton_kueue.Cel.Evaluator.{Json, struct_to_cel_map, evaluation_vars, evaluate}
use tekton_kueue.Cel.Evaluator.Convert.{Returns}
use tekton_kueue.Cel.Evaluator.Evaluate.{
  IsValidRequest, IsEvaluated, evaluate-IsEvaluated, evaluate_iff,
}
use tekton_kueue.Cel.Mutator.{evaluate_loop, evaluate_all}

ok-injective : {a b : List MutationRequest} → ok a ≡ ok b → a ≡ b
ok-injective h = cc

continue-eq-ok :
    (m m' : Metrics) (x : Result (List MutationRequest) × Metrics)
    (f : List MutationRequest → Counted (List MutationRequest)) (rs : List MutationRequest)
    → IsEvaluated m x
    → continue x f ≡ (ok rs, m')
    → (here : List MutationRequest) × (x ≡ (ok here, m)) × (f here m ≡ (ok rs, m'))
continue-eq-ok m m' (ok here, n) f rs (same, valid) h =
    (here, ap (λ k. (ok here, k)) same, subst (λ k. f here k ≡ (ok rs, m')) same h)
continue-eq-ok m m' (err e, n) f rs evaluated h = absurd (err-ne-ok (ap (λ x. x.0) h))

module _ (E : Engine) (J : Json) (plr : PipelineRun) where
  -- The program runs on the PipelineRun, and its result describes these requests, all valid.
  abbrev pub IsResult : CompiledProgram E → List MutationRequest → Type 0
  IsResult p rs =
      (f : Fields) × (out : RefVal) × (struct_to_cel_map J plr ≡ ok f)
      × (E.eval p.program (evaluation_vars f plr) ≡ ok out)
      × Returns (native out) rs
      × All IsValidRequest rs

  -- Each program has its result, and `rs` are these results in the order of the programs.
  abbrev pub AreResults : List (CompiledProgram E) → List MutationRequest → Type 0
  AreResults [] rs = rs ≡ []
  AreResults (p ∷ ps) rs =
      (here : List MutationRequest) × (later : List MutationRequest) × (rs ≡ here ++ later)
      × IsResult p here
      × AreResults ps later

  evaluate_loop_sound :
      (ps : List (CompiledProgram E)) (done rs : List MutationRequest) (m : Metrics)
      → evaluate_loop E J done ps plr m ≡ (ok rs, record_evaluation_success m)
      → (more : List MutationRequest) × (rs ≡ done ++ more) × AreResults ps more
  unfolding evaluate_loop
  evaluate_loop_sound [] done rs m h =
      ([], sym (append-nil done ∙ ok-injective (ap (λ x. x.0) h)), refl)
  evaluate_loop_sound (p ∷ ps) done rs m h =
      let (here, evaluated, rest) =
        continue-eq-ok m _ (evaluate E J p (some plr) m) _ rs (evaluate-IsEvaluated E J p plr m)
          h in
      let (later, e, results) = evaluate_loop_sound ps (done ++ here) rs m rest in
      (
        here ++ later,
        e ∙ append_assoc done here later,
        (here, later, refl, (evaluate_iff E J p plr m here).0 evaluated, results),
      )

  evaluate_loop_complete :
      (ps : List (CompiledProgram E)) (done more : List MutationRequest) (m : Metrics)
      → AreResults ps more
      → evaluate_loop E J done ps plr m ≡ (ok (done ++ more), record_evaluation_success m)
  unfolding evaluate_loop
  evaluate_loop_complete [] done more m h =
      ap (λ l. (ok l, record_evaluation_success m))
        (sym (append-nil done) ∙ ap (λ l. done ++ l) (sym h))
  evaluate_loop_complete (p ∷ ps) done more m (here, later, e, result, results) =
      rw ((evaluate_iff E J p plr m here).1 result) (
        evaluate_loop_complete ps (done ++ here) later m results
        ∙ ap (λ l. (ok l, record_evaluation_success m))
            (append_assoc done here later ∙ ap (λ l. done ++ l) (sym e)))

  -- The evaluation of all programs succeeds, and counts this once, exactly if each program runs on the
  -- PipelineRun to a result that describes valid requests; the requests are then those of the programs,
  -- in order.
  pub evaluate_all_iff :
      (ps : List (CompiledProgram E)) (m : Metrics) (rs : List MutationRequest)
      → (evaluate_all E J ps plr m ≡ (ok rs, record_evaluation_success m)) ↔ AreResults ps rs
  unfolding evaluate_all
  evaluate_all_iff ps m rs = (
    λ h.
        let (more, e, results) = evaluate_loop_sound ps [] rs m h in
        subst (AreResults ps) (sym e) results,
    λ results. evaluate_loop_complete ps [] rs m results,
  )
