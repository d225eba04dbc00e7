-- ===== src/Webhook/Defaulter/Admit.antt =====
-- How a call of `Default` ends, under a store that holds a good configuration.
use mathlib.Core.List.{foldl}
use tekton_kueue.Base.{
  as_validation_error, as_evaluation_error, String, none, some, List, [], ◌∷◌, find, find-assign,
  Error, ok, evaluation_error, bad_request, internal_error, ◌≡◌, ◌≢◌, refl, sym, ◌∙◌, ap, ◌⊎◌, inl,
  inr, arith, eq_iff, Option-cases, >>=-eq-ok,
}
use tekton_kueue.Tekton.{PipelineRun, queue_label}
use tekton_kueue.Metrics.{Metrics, record_evaluation_failure}
use tekton_kueue.Cel.Types.{MutationRequest}
use tekton_kueue.Cel.Compiler.{CompiledProgram, compile_cel_programs}
use tekton_kueue.Cel.Mutator.{Spec}
use tekton_kueue.Cel.Mutator.Errors.{apply_all-error}
use tekton_kueue.Cel.Values.{Engine}
use tekton_kueue.Cel.Evaluator.{Json}
use tekton_kueue.Cel.Mutator.{Outcome, apply_all, mutate_all}
use tekton_kueue.Cel.Mutator.Apply.{apply_all-effects, label_effect}
use tekton_kueue.Cel.Mutator.Frame.{IsFramed, IsFramed-refl, apply_all-IsFramed}
use tekton_kueue.Cel.Mutator.Phases.{
  IsEnded, refused, not_marshalled, not_evaluated, not_applied, applied, mutate_all-IsEnded,
}
use tekton_kueue.Webhook.ConfigStore.{
  Config, PipelineRunMutator, ConfigStore, Libraries, build_mutators, new_cel_mutator,
}
use tekton_kueue.Webhook.ConfigStore.Update.{IsGood}
use tekton_kueue.Webhook.Defaulter.Defaults.{IsDefaulted, set_defaults-IsDefaulted}
use tekton_kueue.Webhook.Defaulter.{
  pipeline_run, other_object, Defaulted, panicked, returned, internal_or_same, status_error,
  after_mutator, run_mutators, set_defaults, default_with, default,
}

-- A PipelineRun with its queue label.
abbrev pub IsQueued : PipelineRun → Type 0
IsQueued plr = (queue : String) × (find plr.labels queue_label ≡ some queue)

-- The ends of a call, for the PipelineRun with the webhook's own defaults: it is admitted, changed
-- by mutations; it is refused as a bad request, with nothing but the defaults; or it fails as an
-- internal error. There is no other error and no panic.
abbrev pub IsHandled : PipelineRun → Defaulted → Type 0
IsHandled d panicked = ⊥
IsHandled d (returned (other_object type) m e) = ⊥
IsHandled d (returned (pipeline_run plr) m none) = IsFramed d plr × IsQueued plr
IsHandled d (returned (pipeline_run plr) m (some (bad_request e))) = plr ≡ d
IsHandled d (returned (pipeline_run plr) m (some (internal_error e))) = IsFramed d plr
IsHandled d (returned (pipeline_run plr) m (some _)) = ⊥

label_effect-some :
    (k v : String) (r : MutationRequest) → (w : String) × (label_effect k (some v) r ≡ some w)
label_effect-some k v r = elim (Option-cases (label_effect k (some v) r)) [
  | inl e ↦ absurd (ground arith)
  | inr found ↦ found
]

foldl-label_effect :
    (k v : String) (rs : List MutationRequest)
    → (w : String) × (foldl (label_effect k) (some v) rs ≡ some w)
foldl-label_effect k v [] = (v, refl)
foldl-label_effect k v (r ∷ rs) =
    let (v', e) = label_effect-some k v r in rw e (foldl-label_effect k v' rs)

set_defaults-IsQueued : (c : Config) (plr : PipelineRun) → IsQueued (set_defaults c plr)
unfolding set_defaults
set_defaults-IsQueued c plr = elim (Option-cases (find plr.labels queue_label)) [
  | inl e ↦ (
    c.queue_name,
    ground (
      arith,
      find-assign plr.labels queue_label c.queue_name queue_label,
      eq_iff queue_label queue_label,
    ),
  )
  | inr (q, e) ↦ (q, ground arith)
]

-- The two ways an EvaluationError is answered, for a PipelineRun that is not changed.
evaluation_error-IsHandled :
    (d : PipelineRun) (m : Metrics) (e : Error)
    → IsHandled d (returned (pipeline_run d) m (some (status_error (evaluation_error e))))
unfolding status_error as_validation_error as_evaluation_error internal_or_same
evaluation_error-IsHandled d m e = elim (Option-cases (as_validation_error e)) [
  | inl h ↦ rw (h, status_error, IsHandled) (IsFramed-refl d)
  | inr (x, h) ↦ rw (h, status_error, IsHandled) refl
]

status_error-plain :
    (x : Error)
    → as_validation_error x ≡ none
    → status_error (evaluation_error x) ≡ internal_error (evaluation_error x)
unfolding status_error as_validation_error as_evaluation_error internal_or_same
status_error-plain x plain = rw (status_error, plain) refl

pub status_error-apply_all :
    (d : PipelineRun) (rs : List MutationRequest) (e : Error)
    → (apply_all d rs).1 ≡ some e
    → status_error e ≡ internal_error e
status_error-apply_all d rs e h =
    let (x, same, plain) = apply_all-error d rs e h in
    ap status_error same ∙ status_error-plain x plain ∙ ap internal_error (sym same)

apply_all-IsQueued :
    (d : PipelineRun) (rs : List MutationRequest)
    → (apply_all d rs).1 ≡ none
    → IsQueued d
    → IsQueued (apply_all d rs).0
apply_all-IsQueued d rs h (q, e) =
    let (w, found) = foldl-label_effect queue_label q rs in
    let (labels, _, _) = apply_all-effects queue_label d rs h in
    (w, labels ∙ ap (λ old. foldl (label_effect queue_label) old rs) e ∙ found)

module _ (E : Engine) (J : Json) (S : Spec) where
  ended-IsHandled :
      (ps : List (CompiledProgram E)) (d : PipelineRun) (m : Metrics) (o : Outcome)
      → IsQueued d
      → IsEnded E J S ps d m o
      → IsHandled d (after_mutator o (run_mutators []) o.error)
  unfolding after_mutator run_mutators
  ended-IsHandled ps d m o queued (refused e _ same) = rw same refl
  ended-IsHandled ps d m o queued (not_marshalled e _ _ same) = rw same refl
  ended-IsHandled ps d m o queued (not_evaluated e _ _ same) =
      rw same (evaluation_error-IsHandled d (record_evaluation_failure m) e)
  ended-IsHandled ps d m o queued (not_applied rs e _ failed same) =
      rw (same, status_error-apply_all d rs e failed) (apply_all-IsFramed d rs)
  ended-IsHandled ps d m o queued (applied rs _ fine same) =
      rw same (apply_all-IsFramed d rs, apply_all-IsQueued d rs fine queued)

-- The end of a call on the submitted PipelineRun `plr`, by what the webhook's defaults make of it.
abbrev pub IsAnswered : Config → PipelineRun → Defaulted → Type 0
IsAnswered cfg plr x = (d : PipelineRun) × IsDefaulted cfg plr d × IsHandled d x

-- A mutator list that an update builds: none, or one of compiled expressions.
module _ (L : Libraries) where
  pub build_mutators_cases :
      (es : List String) (ms : List PipelineRunMutator)
      → build_mutators L es ≡ ok ms
      → ((es ≡ []) × (ms ≡ []))
        ⊎ ((ps : List (CompiledProgram L.engine)) × (compile_cel_programs L.engine L.validation es
              ≡ ok ps)
            × (es ≢ [])
            × (ms ≡ (new_cel_mutator L ps ∷ [])))
  unfolding build_mutators
  build_mutators_cases [] ms h = inl (refl, cc)
  build_mutators_cases (e ∷ es) ms h =
      let (ps, compiled, built) =
        >>=-eq-ok (compile_cel_programs L.engine L.validation (e ∷ es)) _ h in
      inr (ps, compiled, (λ x. cc), cc)

  -- Under the store of a good text, let `d` be the submitted PipelineRun with the webhook's defaults:
  -- pending, with a queue label if it had none, with `managedBy` under the override, and all else as
  -- submitted. The PipelineRun is admitted, with a queue label, as `d` with changes in labels,
  -- annotations and `managedBy` only; or it is refused as a bad request, and is `d`; or the call fails
  -- as an internal error, with such changes only. There is no panic and no error of another kind.
  pub default-IsHandled :
      (s : ConfigStore) (raw : String) (plr : PipelineRun) (m : Metrics)
      → (good : IsGood L raw s) → IsAnswered good.0 plr (default s (pipeline_run plr) m)
  unfolding default default_with mutate_all
  default-IsHandled s raw plr m (cfg, parsed, named, built, stored) =
      let d = set_defaults cfg plr in
      let made = set_defaults-IsDefaulted cfg plr in
      let queued = set_defaults-IsQueued cfg plr in
      elim (build_mutators_cases cfg.expressions s.mutators built) [
        | inl (_, empty) ↦ rw (stored, empty) (d, made, (IsFramed-refl d, queued))
        | inr ([], _, _, one) ↦ rw (stored, one, mutate_all) (d, made, (IsFramed-refl d, queued))
        | inr (p ∷ ps, _, _, one) ↦
            rw (stored, one)
              (
                d,
                made,
                ended-IsHandled L.engine L.json L.spec (p ∷ ps) d m _ queued
                    (mutate_all-IsEnded L.engine L.json L.spec (p ∷ ps) d m),
              )
      ]
