-- ===== src/Webhook/Defaulter/Defaults.antt =====
-- internal/webhook/v1/pipelinerun_webhook.go, lines 147-161: what the webhook's own defaults make of the
-- submitted PipelineRun, described field by field.
use tekton_kueue.Base.{
  String, Option, none, some, ◌==◌, find, find-assign, ◌≡◌, arith, if◌then◌else◌,
}
use tekton_kueue.Tekton.{PipelineRun, status_pending, queue_label, managed_by_multi_kueue_label}
use tekton_kueue.Webhook.ConfigStore.{Config}
use tekton_kueue.Webhook.Defaulter.{set_defaults}

-- The label `k` and `managedBy` as the webhook's own defaults make them.
abbrev pub default_label : Config → PipelineRun → String → Option String
default_label cfg plr k = elim (find plr.labels queue_label) [
  | some queue ↦ find plr.labels k
  | none ↦ if queue_label == k then some cfg.queue_name else find plr.labels k
]

abbrev pub default_managed_by : Config → PipelineRun → Option String
default_managed_by cfg plr =
    if cfg.multi_kueue_override then some managed_by_multi_kueue_label else plr.managed_by

-- What the webhook carries along: all but the labels, the annotations, `managedBy` and the status of
-- the spec.
pub record IsCarried (plr result : PipelineRun) : Type 0 where
  pub same_name : result.name ≡ plr.name
  pub same_namespace : result.namespace ≡ plr.namespace
  pub same_managed_fields : result.managed_fields ≡ plr.managed_fields
  pub same_rest : result.rest ≡ plr.rest
  pub same_conditions : result.conditions ≡ plr.conditions

-- `d` is the submitted PipelineRun `plr`, pending, with a queue label if it had none, and with
-- `managedBy` under the override; all else is as it was submitted.
pub record IsDefaulted (cfg : Config) (plr d : PipelineRun) : Type 0 where
  pub label : (k : String) → find d.labels k ≡ default_label cfg plr k
  pub same_annotations : d.annotations ≡ plr.annotations
  pub managed_by : d.managed_by ≡ default_managed_by cfg plr
  pub pending : d.spec_status ≡ status_pending
  pub carried : IsCarried plr d

set_defaults-labels :
    (cfg : Config) (plr : PipelineRun) (k : String)
    → find (set_defaults cfg plr).labels k ≡ default_label cfg plr k
unfolding set_defaults
set_defaults-labels cfg plr k = ground (arith, find-assign plr.labels queue_label cfg.queue_name k)

set_defaults-IsCarried : (cfg : Config) (plr : PipelineRun) → IsCarried plr (set_defaults cfg plr)
unfolding set_defaults
set_defaults-IsCarried cfg plr = ground arith

set_defaults-others :
    (cfg : Config) (plr : PipelineRun)
    → ((set_defaults cfg plr).annotations ≡ plr.annotations)
      × ((set_defaults cfg plr).managed_by ≡ default_managed_by cfg plr)
      × ((set_defaults cfg plr).spec_status ≡ status_pending)
unfolding set_defaults
set_defaults-others cfg plr = ground arith

pub set_defaults-IsDefaulted :
    (cfg : Config) (plr : PipelineRun) → IsDefaulted cfg plr (set_defaults cfg plr)
set_defaults-IsDefaulted cfg plr =
    let (annotations, managed, status) = set_defaults-others cfg plr in
    record {
      label = set_defaults-labels cfg plr;
      same_annotations = annotations;
      managed_by = managed;
      pending = status;
      carried = set_defaults-IsCarried cfg plr;
    }
