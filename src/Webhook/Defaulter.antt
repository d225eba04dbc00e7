-- ===== src/Webhook/Defaulter.antt =====
-- internal/webhook/v1/pipelinerun_webhook.go, lines 129-181: the defaulter of PipelineRuns.
pub mod Defaults
pub mod Admit
pub mod Effects
pub mod Counters
use tekton_kueue.Base.{
  as_validation_error, as_evaluation_error, String, Bool, true, false, Option, none, some, List, [],
  ◌∷◌, is_none, find, assign, Dict, Error, errorf, wrap, errorv, validation_error, evaluation_error,
  bad_request, internal_error, if◌then◌else◌,
}
use tekton_kueue.Tekton.{PipelineRun, status_pending, queue_label, managed_by_multi_kueue_label}
use tekton_kueue.Metrics.{Metrics}
use tekton_kueue.Cel.Mutator.{Outcome}
use tekton_kueue.Webhook.ConfigStore.{
  Config, PipelineRunMutator, ConfigStore, get_config_and_mutators,
}

-- A `runtime.Object`: a PipelineRun, or an object of another Go type.
pub data Object : Type 0 where
  pipeline_run : PipelineRun → Object
  other_object : String → Object

-- A call of `Default` panics, or leaves the object, the counters and an error.
pub data Defaulted : Type 0 where
  panicked : Defaulted
  returned : Object → Metrics → Option Error → Defaulted

internal_or_same : Error → Option Error → Error
internal_or_same e (some x) = internal_error x
internal_or_same e none = e

-- The error that `Default` returns for an error of a mutator.
unfoldable pub status_error : Error → Error
unfolding as_validation_error as_evaluation_error internal_or_same
status_error e = elim (as_validation_error e) [
  | some x ↦ bad_request x
  | none ↦ internal_or_same e (as_evaluation_error e)
]

-- Goes on with the next mutator, or returns.
after_mutator : Outcome → (PipelineRun → Metrics → Defaulted) → Option Error → Defaulted
after_mutator o next none = next o.plr o.metrics
after_mutator o next (some e) = returned (pipeline_run o.plr) o.metrics (some (status_error e))

run_mutators : List PipelineRunMutator → PipelineRun → Metrics → Defaulted
unfolding after_mutator status_error
run_mutators [] plr m = returned (pipeline_run plr) m none
run_mutators (mutator ∷ mutators) plr m =
    let o = mutator plr m in after_mutator o (run_mutators mutators) o.error

-- The queue label, unless there is one; `labels` is made before.
set_queue : Config → PipelineRun → PipelineRun
set_queue config plr =
    if is_none (find plr.labels queue_label)
    then record plr { labels = assign plr.labels queue_label config.queue_name }
    else plr

set_managed_by : Config → PipelineRun → PipelineRun
set_managed_by config plr =
    if config.multi_kueue_override
    then record plr { managed_by = some managed_by_multi_kueue_label }
    else plr

-- The defaults of the webhook itself, before the mutators.
unfoldable pub set_defaults : Config → PipelineRun → PipelineRun
unfolding set_queue set_managed_by
set_defaults config plr =
    set_managed_by config (set_queue config (record plr { spec_status = status_pending }))

-- A nil configuration is dereferenced at `config.QueueName`, or at `config.MultiKueueOverride`.
default_with : Option Config → List PipelineRunMutator → PipelineRun → Metrics → Defaulted
default_with none mutators plr m = panicked
default_with (some config) mutators plr m = run_mutators mutators (set_defaults config plr) m

unfoldable pub default : ConfigStore → Object → Metrics → Defaulted
unfolding default_with run_mutators set_defaults
default store (other_object type) m =
    returned (other_object type) m
      (some (bad_request (errorf "expected a PipelineRun object but got %T" (type ∷ []))))
default store (pipeline_run plr) m =
    let (config, mutators) = get_config_and_mutators store in default_with config mutators plr m
